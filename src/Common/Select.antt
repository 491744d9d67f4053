-- ===== src/Common/Select.antt =====
-- The elements of a list that pass a Boolean test.
use mathlib.Core.Path.{◌≡◌, refl, sym, ap, ◌∙◌}
use mathlib.Core.Logic.{inl, inr}
use mathlib.Core.Bool.{Bool, true, false}
use mathlib.Core.List.{List, [], ◌∷◌, Memᴰ}
use mathlib.Core.List.Memᴰ
use soelib.Common.Tests.{if◌then◌else◌, Bool-cases}
use soelib.Common.Lists.{All}

abbrev pub select {ℓ} : {A : Type ℓ} → (A → Bool) → List A → List A
select p [] = []
select p (x ∷ xs) = let rest = select p xs in if p x then x ∷ rest else rest

pub select-none {ℓ} :
    {A : Type ℓ} (p : A → Bool) (xs : List A) → All (λ x. p x ≡ false) xs → select p xs ≡ []
select-none p [] h = refl
select-none p (x ∷ xs) h = rw h.0 (select-none p xs h.1)

pub Memᴰ-select {ℓ} :
    {A : Type ℓ} (p : A → Bool) {a : A} (xs : List A)
    → Memᴰ a xs
    → p a ≡ true
    → Memᴰ a (select p xs)
Memᴰ-select p [] m h = absurd (Memᴰ.not-nil m)
Memᴰ-select p {a} (x ∷ xs) m h = elim (Memᴰ.cases_cons m) [
  | inl e ↦ rw (sym (ap p e) ∙ h) (Memᴰ.head e)
  | inr m' ↦
      let rest = Memᴰ-select p xs m' h in
      elim (Bool-cases (p x)) [ inl q ↦ rw q (Memᴰ.tail rest) | inr q ↦ rw q rest ]
]
