-- ===== src/Utils/Lists.antt =====
-- Lists without duplicates and the pages of a list, of common/utils/util.go.
use soelib.Common.{
  ◌≤◌, ◌<◌, min, List, [], ◌∷◌, map, true, false, if◌then◌else◌, Bool-cases, ◌≡◌, refl, sym, ap,
  ◌∙◌, inl, inr, arith,
}
use soelib.Common.Text.{String, text_eq}
use soelib.Utils.SignLaws.{occurrences, occurrences_self, occurrences_more}
use soelib.Utils.Numbers.{seen_key, removal_loop, list_duplicate_removal}

once_tail : (k x : String) (xs : List String) → occurrences k (x ∷ xs) ≤ 1 → occurrences k xs ≤ 1
once_tail k x xs h = elim (Bool-cases (text_eq.beq k x)) [
  | inl e ↦ let h' = (rw e at h) in omega (arith, h')
  | inr e ↦ (rw e at h)
]

seen_key_same :
    (k item : String) (temp : List String)
    → text_eq.beq k item ≡ true
    → seen_key item temp ≡ seen_key k temp
seen_key_same k item temp e =
    ap (λ (x : String). seen_key x temp) (sym ((text_eq.beq_iff k item).0 e))

module _ {ℓ} {A : Type ℓ} (key : A → String) where
  occurrences-removal_loop :
      (k : String) (temp : List String) (xs : List A)
      → occurrences k (map key (removal_loop key temp xs))
        ≡ (if seen_key k temp then 0 else min 1 (occurrences k (map key xs)))
  occurrences-removal_loop k temp [] = elim (Bool-cases (seen_key k temp)) [
    | inl e ↦ rw e refl
    | inr e ↦ rw e refl
  ]
  occurrences-removal_loop k temp (item ∷ xs) = elim (Bool-cases (seen_key (key item) temp)) [
    | inl old ↦
        let rest = occurrences-removal_loop k temp xs in
        rw old (elim (Bool-cases (text_eq.beq k (key item))) [
          | inl e ↦
              let found = sym (seen_key_same k (key item) temp e) ∙ old in
              rw (e, found) (rw found at rest)
          | inr e ↦ rw e rest
        ])
    | inr new ↦
        let rest = occurrences-removal_loop k (key item ∷ temp) xs in
        rw new (elim (Bool-cases (text_eq.beq k (key item))) [
          | inl e ↦
              let none_left = (rw e at rest) in
              rw (e, sym (seen_key_same k (key item) temp e) ∙ new) (omega (arith, none_left))
          | inr e ↦ rw e (rw e at rest)
        ])
  ]

  removal_loop_kept :
      (temp : List String) (xs : List A)
      → ((k : String) → 0 < occurrences k (map key xs) → seen_key k temp ≡ false)
      → ((k : String) → occurrences k (map key xs) ≤ 1)
      → removal_loop key temp xs ≡ xs
  removal_loop_kept temp [] fresh once = refl
  removal_loop_kept temp (item ∷ xs) fresh once =
      let self = occurrences_self (key item) (map key xs) in
      let new = fresh (key item) (omega (arith, self)) in
      rw new (
        ap (λ (ys : List A). item ∷ ys)
          (removal_loop_kept (key item ∷ temp) xs
            (λ k h. elim (Bool-cases (text_eq.beq k (key item))) [
              | inl e ↦
                  let twice = once k in let two = (rw e at twice) in absurd (omega (arith, h, two))
              | inr e ↦ rw e (fresh k (occurrences_more (key item) k (map key xs) h))
            ])
            (λ k. once_tail k (key item) (map key xs) (once k))))

  -- Of each key that the list has, one item is left, and no other; a list that has been through it
  -- stays as it is.
  pub list_duplicate_removal-occurrences :
      (xs : List A)
      → ((k : String)
          → occurrences k (map key (list_duplicate_removal key xs))
            ≡ min 1 (occurrences k (map key xs)))
        × (list_duplicate_removal key (list_duplicate_removal key xs)
            ≡ list_duplicate_removal key xs)
  unfolding list_duplicate_removal
  list_duplicate_removal-occurrences xs = (
    λ k. occurrences-removal_loop k [] xs,
    removal_loop_kept [] (removal_loop key [] xs) (λ k h. refl)
        (λ k. omega (arith, occurrences-removal_loop k [] xs)),
  )
