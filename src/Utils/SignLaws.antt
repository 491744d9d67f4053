-- ===== src/Utils/SignLaws.antt =====
-- The text that common/utils/sign.go signs does not depend on the order in which Go meets the keys of
-- a map.
use soelib.Common.{
  ℕ, suc, ◌<◌, List, [], ◌∷◌, Bool, true, false, if◌then◌else◌, select, All, Bool-cases, ◌≡◌, ◌≢◌,
  ◌⊎◌, refl, sym, ap, ap₂, ◌∙◌, inl, inr, arith,
}
use mathlib.Core.Path.{subst}
use soelib.Common.Text.{String, text_eq, ◌<>◌}
use soelib.Utils.Sign.{less, kept_keys, write_params, order_param}

-- How often a key stands in a list.
abbrev pub occurrences : String → List String → ℕ
occurrences k [] = 0
occurrences k (x ∷ xs) = let rest = occurrences k xs in if text_eq.beq k x then suc rest else rest

-- The same keys, in whatever order.
abbrev pub SameKeys : List String → List String → Type 0
SameKeys xs ys = (k : String) → occurrences k xs ≡ occurrences k ys

-- No key is before one that stands left of it.
abbrev pub IsSorted : (String → String → Bool) → List String → Type 0
IsSorted lt [] = Unit
IsSorted lt (x ∷ xs) = All (λ y. lt y x ≡ false) xs × IsSorted lt xs

-- What `sort.Slice` documents: the slice has its elements, sorted. The comparison is an order here.
abbrev pub IsSortOf : (String → String → Bool) → List String → List String → Type 0
IsSortOf lt xs sorted = SameKeys sorted xs × IsSorted lt sorted

-- Of two different keys one is before the other.
abbrev pub Ordered : (String → String → Bool) → List String → Type 0
Ordered lt xs =
    (a b : String)
    → 0 < occurrences a xs
    → 0 < occurrences b xs
    → a ≢ b
    → (lt a b ≡ true) ⊎ (lt b a ≡ true)

pub occurrences_self :
    (x : String) (xs : List String) → occurrences x (x ∷ xs) ≡ suc (occurrences x xs)
occurrences_self x xs = rw ((text_eq.beq_iff x x).1 refl) refl

occurrences-All :
    (P : String → Type 0) (k : String) (xs : List String) → All P xs → 0 < occurrences k xs → P k
occurrences-All P k [] h c = absurd (omega arith)
occurrences-All P k (x ∷ xs) h c = elim (Bool-cases (text_eq.beq k x)) [
  | inl e ↦ subst P (sym ((text_eq.beq_iff k x).0 e)) h.0
  | inr e ↦ occurrences-All P k xs h.1 (rw e at c)
]

occurrences-select :
    (p : String → Bool) (k : String) (xs : List String)
    → occurrences k (select p xs) ≡ (if p k then occurrences k xs else 0)
occurrences-select p k [] = elim (Bool-cases (p k)) [ inl e ↦ rw e refl | inr e ↦ rw e refl ]
occurrences-select p k (x ∷ xs) =
    let rest = occurrences-select p k xs in
    elim (Bool-cases (text_eq.beq k x)) [
      | inl e ↦
          let same : p x ≡ p k = ap p (sym ((text_eq.beq_iff k x).0 e)) in
          elim (Bool-cases (p k)) [
            | inl f ↦ rw (same ∙ f, f, e) (ap suc (rw f at rest))
            | inr f ↦ rw (same ∙ f, f) (rw f at rest)
          ]
      | inr e ↦ elim (Bool-cases (p x)) [ inl f ↦ rw (f, e) rest | inr f ↦ rw (f, e) rest ]
    ]

occurrences-other :
    (k x : String) (xs : List String)
    → text_eq.beq k x ≡ false
    → occurrences k (x ∷ xs) ≡ occurrences k xs
occurrences-other k x xs e = rw e refl

differ : (k x : String) → text_eq.beq k x ≡ false → k ≢ x
differ k x e p = absurd (ground (arith, e, (text_eq.beq_iff k x).1 p))

swapped : (k x : String) → text_eq.beq k x ≡ false → text_eq.beq x k ≡ false
swapped k x e = elim (Bool-cases (text_eq.beq x k)) [
  | inl f ↦ absurd (differ k x e (sym ((text_eq.beq_iff x k).0 f)))
  | inr f ↦ f
]

pub occurrences_more :
    (x k : String) (xs : List String) → 0 < occurrences k xs → 0 < occurrences k (x ∷ xs)
occurrences_more x k xs h = elim (Bool-cases (text_eq.beq k x)) [
  | inl e ↦ rw e (omega arith)
  | inr e ↦ rw e h
]

same_tail : (x : String) (xs ys : List String) → SameKeys (x ∷ xs) (x ∷ ys) → SameKeys xs ys
same_tail x xs ys same k =
    let h = same k in
    elim (Bool-cases (text_eq.beq k x)) [ inl e ↦ omega (arith, rw e at h) | inr e ↦ (rw e at h) ]

Ordered-tail :
    (lt : String → String → Bool) (x : String) (xs : List String)
    → Ordered lt (x ∷ xs)
    → Ordered lt xs
Ordered-tail lt x xs o a b ca cb ne =
    o a b (occurrences_more x a xs ca) (occurrences_more x b xs cb) ne

-- Sorted lists of the same keys are equal, if different keys are ordered.
sorted_unique :
    (lt : String → String → Bool) (xs ys : List String)
    → SameKeys xs ys
    → Ordered lt xs
    → IsSorted lt xs
    → IsSorted lt ys
    → xs ≡ ys
sorted_unique lt [] [] same o sx sy = refl
sorted_unique lt [] (y ∷ ys) same o sx sy = absurd (omega (arith, same y, occurrences_self y ys))
sorted_unique lt (x ∷ xs) [] same o sx sy = absurd (omega (arith, same x, occurrences_self x xs))
sorted_unique lt (x ∷ xs) (y ∷ ys) same o sx sy = elim (Bool-cases (text_eq.beq x y)) [
  | inl e ↦
      let p = (text_eq.beq_iff x y).0 e in
      let tails = same_tail x xs ys (subst (λ z. SameKeys (x ∷ xs) (z ∷ ys)) (sym p) same) in
      ap₂ ◌∷◌ p (sorted_unique lt xs ys tails (Ordered-tail lt x xs o) sx.1 sy.1)
  | inr e ↦
      let e' = swapped x y e in
      let in_ys : 0 < occurrences x ys =
        omega (arith, same x, occurrences_self x xs, occurrences-other x y ys e) in
      let in_xs : 0 < occurrences y xs =
        omega (arith, same y, occurrences_self y ys, occurrences-other y x xs e') in
      let first = occurrences-All (λ z. lt z x ≡ false) y xs sx.0 in_xs in
      let second = occurrences-All (λ z. lt z y ≡ false) x ys sy.0 in_ys in
      elim (o x y (omega (arith, occurrences_self x xs)) (occurrences_more x y xs in_xs)
        (differ x y e)) [
          | inl l ↦ absurd (ground (arith, l, second))
          | inr l ↦ absurd (ground (arith, l, first))
        ]
]

same_select :
    (p : String → Bool) (xs ys : List String)
    → SameKeys xs ys
    → SameKeys (select p xs) (select p ys)
same_select p xs ys same k =
    occurrences-select p k xs
    ∙ ap (λ (n : ℕ). if p k then n else 0) (same k)
    ∙ sym (occurrences-select p k ys)

occurrences-select-le :
    (p : String → Bool) (k : String) (xs : List String)
    → 0 < occurrences k (select p xs)
    → 0 < occurrences k xs
occurrences-select-le p k xs h = elim (Bool-cases (p k)) [
  | inl e ↦
      omega (arith, h, occurrences-select p k xs ∙ ap (λ b. if b then occurrences k xs else 0) e)
  | inr e ↦
      absurd (
        omega (arith, h, occurrences-select p k xs ∙ ap (λ b. if b then occurrences k xs else 0) e))
]

-- The text is the same for the same keys and values, in whatever order two runs meet the keys and
-- however each sorts, if of two different keys one is before the other in lower case.
pub order_param_same :
    (to_lower : String → String) (sort sort' : (String → String → Bool) → List String → List String)
    (keys keys' : List String) (value : String → String) (biz_key : String)
    → IsSortOf
        (less to_lower)
        (kept_keys to_lower keys)
        (sort (less to_lower) (kept_keys to_lower keys))
    → IsSortOf
        (less to_lower)
        (kept_keys to_lower keys')
        (sort' (less to_lower) (kept_keys to_lower keys'))
    → SameKeys keys keys'
    → Ordered (less to_lower) keys
    → order_param to_lower sort keys value biz_key ≡ order_param to_lower sort' keys' value biz_key
unfolding order_param
order_param_same to_lower sort sort' keys keys' value biz_key one other same o =
    let lt = less to_lower in
    let kept = kept_keys to_lower keys in
    let kept' = kept_keys to_lower keys' in
    ap (λ (ks : List String). write_params ks value "" <> biz_key)
      (sorted_unique lt (sort lt kept) (sort' lt kept')
        (λ k. one.0 k ∙ same_select _ keys keys' same k ∙ sym (other.0 k))
        (λ a b ca cb ne.
          o a b (occurrences-select-le _ a keys (subst (λ n. 0 < n) (one.0 a) ca))
            (occurrences-select-le _ b keys (subst (λ n. 0 < n) (one.0 b) cb)) ne)
        one.1 other.1)
