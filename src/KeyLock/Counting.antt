-- ===== src/KeyLock/Counting.antt =====
-- Counting the goroutines of common/keylock that are at a place.
use soelib.Common.{
  ℕ, zero, suc, ◌+◌, ◌≤◌, List, [], ◌∷◌, Option, none, some, Bool, true, false, ◌==◌, All,
  get_elem?, set, ◌≡◌, ◌≢◌, refl, sym, ap, arith,
}
use soelib.KeyLock.Locks.{Local, waiting, holding, leaving}

pub some-value : {A : Type 0} {a b : A} → some a ≡ some b → a ≡ b
some-value {A} {a} {b} e = ap (λ (o : Option A). elim o [ none ↦ a | some x ↦ x ]) e

module _ {A : Type 0} where
  abbrev pub total : (A → ℕ) → List A → ℕ
  total f [] = 0
  total f (x ∷ xs) = f x + total f xs

  pub total-set :
      (f : A → ℕ) (xs : List A) (i : ℕ) (a v : A)
      → get_elem? xs i ≡ some a
      → total f (set xs i v) + f a ≡ total f xs + f v
  total-set f [] i a v e = absurd (ground arith)
  total-set f (x ∷ xs) zero a v e = omega (arith, ap f (some-value e))
  total-set f (x ∷ xs) (suc i) a v e = omega (arith, total-set f xs i a v e)

  pub total-get :
      (f : A → ℕ) (xs : List A) (i : ℕ) (a : A) → get_elem? xs i ≡ some a → f a ≤ total f xs
  total-get f [] i a e = absurd (ground arith)
  total-get f (x ∷ xs) zero a e = omega (arith, ap f (some-value e))
  total-get f (x ∷ xs) (suc i) a e = omega (arith, total-get f xs i a e)

  pub total-two :
      (f : A → ℕ) (xs : List A) (i j : ℕ) (a b : A)
      → get_elem? xs i ≡ some a
      → get_elem? xs j ≡ some b
      → i ≢ j
      → f a + f b ≤ total f xs
  total-two f [] i j a b p q ne = absurd (ground arith)
  total-two f (x ∷ xs) zero zero a b p q ne = absurd (ne refl)
  total-two f (x ∷ xs) zero (suc j) a b p q ne =
      omega (arith, ap f (some-value p), total-get f xs j b q)
  total-two f (x ∷ xs) (suc i) zero a b p q ne =
      omega (arith, ap f (some-value q), total-get f xs i a p)
  total-two f (x ∷ xs) (suc i) (suc j) a b p q ne =
      omega (arith, total-two f xs i j a b p q (λ e. ne (ap suc e)))

  pub All-get :
      (P : A → Type 0) (xs : List A) (i : ℕ) (a : A) → All P xs → get_elem? xs i ≡ some a → P a
  All-get P [] i a h e = absurd (ground arith)
  All-get P (x ∷ xs) zero a h e = rw (sym (some-value e)) h.0
  All-get P (x ∷ xs) (suc i) a h e = All-get P xs i a h.1 e

  pub All-at :
      (P : A → Type 0) (xs : List A) → ((i : ℕ) (a : A) → get_elem? xs i ≡ some a → P a) → All P xs
  All-at P [] h = tt
  All-at P (x ∷ xs) h = (h 0 x refl, All-at P xs (λ i a e. h (suc i) a e))

  pub All-map : {P Q : A → Type 0} (f : (a : A) → P a → Q a) (xs : List A) → All P xs → All Q xs
  All-map f [] h = tt
  All-map f (x ∷ xs) h = (f x h.0, All-map f xs h.1)

abbrev pub digit : Bool → ℕ
digit true = 1
digit false = 0

-- A goroutine that has added to the counter at `l` and not taken it off.
abbrev pub user : {K : Type 0} → ℕ → Local K → ℕ
user l (waiting k j) = digit (j == l)
user l (holding k j) = digit (j == l)
user l _ = 0

-- A goroutine that has the mutex at `l`.
abbrev pub owner : {K : Type 0} → ℕ → Local K → ℕ
owner l (holding k j) = digit (j == l)
owner l (leaving j) = digit (j == l)
owner l _ = 0
