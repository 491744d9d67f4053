-- ===== src/Ants/Window.antt =====
-- What a pool of tools/ants/pool.go keeps of the tasks that have ended: the last of their durations
-- and of their records, and the extreme durations.
use soelib.Common.{
  ℕ, zero, suc, ◌+◌, ◌-◌, ◌≤◌, List, [], ◌∷◌, ◌++◌, lt→ltb, not_ltb, length, drop, length-append,
  length-drop, ◌≡◌, refl, ap, ◌∙◌, sym, arith,
}
use native.Mathlib.Decide.{dec_lt}
use soelib.Ants.Types.{keep_last}

module _ {ℓ} {A : Type ℓ} where
  drop-nil : (n : ℕ) → drop {A = A} n [] ≡ []
  drop-nil zero = refl
  drop-nil (suc n) = refl

  drop-drop : (a b c : ℕ) (xs : List A) → c ≡ b + a → drop a (drop b xs) ≡ drop c xs
  drop-drop a zero c xs e = ap (λ n. drop n xs) (let e' : a ≡ c = omega arith in e')
  drop-drop a (suc b) zero xs e = absurd (omega arith)
  drop-drop a (suc b) (suc c) [] e = drop-nil a
  drop-drop a (suc b) (suc c) (x ∷ xs) e = drop-drop a b c xs (omega arith)

  drop-append_le : (n : ℕ) (xs ys : List A) → n ≤ length xs → drop n (xs ++ ys) ≡ drop n xs ++ ys
  drop-append_le zero xs ys h = refl
  drop-append_le (suc n) [] ys h = absurd (omega arith)
  drop-append_le (suc n) (x ∷ xs) ys h = drop-append_le n xs ys (omega arith)

  drop_long : (n : ℕ) (xs : List A) → n ≡ 0 → drop n xs ≡ xs
  drop_long zero xs e = refl
  drop_long (suc n) xs e = absurd (omega arith)

  keep_last-eq-drop : (n : ℕ) (xs : List A) → keep_last n xs ≡ drop (length xs - n) xs
  unfolding keep_last
  keep_last-eq-drop n xs = elim (dec_lt n (length xs)) [
    | yes p ↦ rw (lt→ltb n (length xs) p)
    | no p ↦ rw (not_ltb n (length xs) p) (sym (drop_long _ xs (omega arith)))
  ]

  pub length-keep_last : (n : ℕ) (xs : List A) → length (keep_last n xs) ≤ n
  length-keep_last n xs =
      omega (arith, ap (length {A = A}) (keep_last-eq-drop n xs), length-drop (length xs - n) xs)

  -- Trimming early or late makes no difference.
  pub keep_last-snoc :
      (n : ℕ) (xs : List A) (x : A)
      → keep_last n (keep_last n xs ++ x ∷ []) ≡ keep_last n (xs ++ x ∷ [])
  keep_last-snoc n xs x =
      ap (λ (l : List A). keep_last n (l ++ x ∷ [])) (keep_last-eq-drop n xs)
      ∙ ap (keep_last n) (sym (drop-append_le m xs (x ∷ []) (omega arith)))
      ∙ keep_last-eq-drop n (drop m ys)
      ∙ drop-drop (length (drop m ys) - n) m (length ys - n) ys
          (omega (arith, length-drop m ys, length-append xs (x ∷ [])))
      ∙ sym (keep_last-eq-drop n ys)
    where
      m : ℕ
      m = length xs - n

      ys : List A
      ys = xs ++ x ∷ []
