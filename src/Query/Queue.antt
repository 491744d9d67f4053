-- ===== src/Query/Queue.antt =====
-- tools/query/query.go. An element may be nil. `Offer` and `Poll` are one step each, as they hold the
-- lock throughout; `Clear` looks at the queue before it takes the lock, so it is two steps.
use soelib.Common.{
  ℕ, List, [], ◌∷◌, ◌++◌, Option, none, Bool, true, false, ◌==◌, length, if◌then◌else◌,
}

pub record Query {ℓ} (E : Type ℓ) : Type ℓ where
  pub element : List (Option E)

abbrev pub create {ℓ} : {E : Type ℓ} → Query E
create = record { element = [] }

unfoldable pub offer {ℓ} : {E : Type ℓ} → Query E → Option E → Query E
offer q e = record { element = q.element ++ e ∷ [] }

unfoldable pub size {ℓ} : {E : Type ℓ} → Query E → ℕ
size q = length q.element

unfoldable pub is_empty {ℓ} : {E : Type ℓ} → Query E → Bool
is_empty q = length q.element == 0

-- The first element and the rest, of a queue that has one.
abbrev first_element {ℓ} : {E : Type ℓ} → List (Option E) → Option E
first_element [] = none
first_element (e ∷ es) = e

abbrev rest_elements {ℓ} : {E : Type ℓ} → List (Option E) → List (Option E)
rest_elements [] = []
rest_elements (e ∷ es) = es

unfoldable pub poll {ℓ} : {E : Type ℓ} → Query E → Option E × Query E
poll q =
    if is_empty q
    then (none, q)
    else (first_element q.element, record { element = rest_elements q.element })

-- The part of `Clear` with the lock: the loop that sets each element to nil, from the first on, and the
-- list set to nil after it.
abbrev nil_elements {ℓ} : {E : Type ℓ} → List (Option E) → List (Option E)
nil_elements [] = []
nil_elements (e ∷ es) = none ∷ nil_elements es

abbrev without_elements {ℓ} : {E : Type ℓ} → List (Option E) → List (Option E)
without_elements es = []

unfoldable pub clear_locked {ℓ} : {E : Type ℓ} → Query E → Query E
clear_locked q = record { element = without_elements (nil_elements q.element) }

-- `Clear` of a goroutine that is not interrupted.
unfoldable pub clear {ℓ} : {E : Type ℓ} → Query E → Bool × Query E
clear q = if is_empty q then (false, q) else (true, clear_locked q)
