-- ===== src/Query/Samples.antt =====
-- Runs of a queue of tools/query.
use soelib.Common.{ℕ, [], ◌∷◌, none, some, true, false, ◌≡◌, refl}
use soelib.Query.Queue.{Query, create, offer, poll, clear, clear_locked, is_empty, size}
use soelib.Query.Order.{offer_step, poll_step, clear_step, out, leaves-in_order}

abbrev two : Query ℕ
two = record { element = some 4 ∷ some 5 ∷ [] }

queue_run :
    (poll (offer two (some 6)) ≡ (some 4, record { element = some 5 ∷ some 6 ∷ [] }))
    × (poll (create {E = ℕ}) ≡ (none, create))
    × (clear two ≡ (true, create))
    × (clear (create {E = ℕ}) ≡ (false, create))
    × (size two ≡ 2)
unfolding poll offer is_empty clear clear_locked size
queue_run = (refl, refl, refl, refl, refl)

leaves-in_order_example :
    out (offer_step 6 ∷ poll_step ∷ clear_step ∷ poll_step ∷ offer_step 7 ∷ []) two
    ≡ some 4 ∷ some 5 ∷ some 6 ∷ some 7 ∷ []
leaves-in_order_example =
    leaves-in_order (offer_step 6 ∷ poll_step ∷ clear_step ∷ poll_step ∷ offer_step 7 ∷ [])
      (4 ∷ 5 ∷ [])
