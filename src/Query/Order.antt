-- ===== src/Query/Order.antt =====
-- The order in which elements leave a queue of tools/query.
use soelib.Common.{
  false, arith, List, [], ◌∷◌, ◌++◌, map, Option, none, some, ◌≡◌, refl, sym, ap, ◌∙◌,
}
use soelib.Query.Queue.{Query, offer, poll, is_empty, clear_locked}

-- A step of a goroutine; the last one is the part of `Clear` with the lock.
pub data Step (E : Type 0) : Type 0 where
  offer_step : E → Step E
  poll_step clear_step : Step E

module _ {E : Type 0} where
  abbrev pub offered : List (Step E) → List (Option E)
  offered [] = []
  offered (offer_step e ∷ xs) = some e ∷ offered xs
  offered (poll_step ∷ xs) = offered xs
  offered (clear_step ∷ xs) = offered xs

  -- The value that `Poll` returns, if it is not nil.
  abbrev pub value : Option E → List (Option E)
  value none = []
  value (some e) = some e ∷ []

  abbrev pub step : Step E → Query E → Query E
  step (offer_step e) q = offer q (some e)
  step poll_step q = (poll q).1
  step clear_step q = clear_locked q

  -- What leaves the queue: the values that `Poll` returns, and what `Clear` finds behind the lock.
  abbrev pub leaving : Step E → Query E → List (Option E)
  leaving (offer_step e) q = []
  leaving poll_step q = value (poll q).0
  leaving clear_step q = q.element

  abbrev pub run_steps : List (Step E) → Query E → Query E
  run_steps [] q = q
  run_steps (x ∷ xs) q = run_steps xs (step x q)

  abbrev pub all_leaving : List (Step E) → Query E → List (Option E)
  all_leaving [] q = []
  all_leaving (x ∷ xs) q = leaving x q ++ all_leaving xs (step x q)

  -- What leaves the queue in some steps, and what they leave in it.
  abbrev pub out : List (Step E) → Query E → List (Option E)
  out xs q = all_leaving xs q ++ (run_steps xs q).element

  nothing_after : (l : List (Option E)) → l ++ [] ≡ l
  nothing_after [] = refl
  nothing_after (a ∷ l) = ap (λ (r : List (Option E)). a ∷ r) (nothing_after l)

  append_assoc : (a b c : List (Option E)) → (a ++ b) ++ c ≡ a ++ (b ++ c)
  append_assoc [] b c = refl
  append_assoc (x ∷ a) b c = ap (λ (r : List (Option E)). x ∷ r) (append_assoc a b c)

  snoc : (es : List E) (e : E) → map some es ++ some e ∷ [] ≡ map some (es ++ e ∷ [])
  snoc [] e = refl
  snoc (x ∷ es) e = ap (λ (l : List (Option E)). some x ∷ l) (snoc es e)

  poll-first :
      (e : Option E) (es : List (Option E))
      → poll (record { element = e ∷ es }) ≡ (e, record { element = es })
  unfolding poll is_empty
  poll-first e es =
      let h : is_empty (record { element = e ∷ es }) ≡ false = ground arith in rw h refl

  -- Of what goroutines offer, in whatever interleaving of `Offer`, `Poll` and `Clear`, nothing is lost,
  -- doubled or overtaken: what `Poll` returns and `Clear` drops, in this order, followed by what is
  -- still in the queue, is what was in the queue followed by what is offered, if nothing offered
  -- is nil.
  pub leaves-in_order :
      (xs : List (Step E)) (es : List E)
      → out xs (record { element = map some es }) ≡ map some es ++ offered xs
  unfolding offer poll is_empty clear_locked
  leaves-in_order [] es = sym (nothing_after (map some es))
  leaves-in_order (offer_step e ∷ xs) es =
      ap (λ (l : List (Option E)). out xs (record { element = l })) (snoc es e)
      ∙ (leaves-in_order xs (es ++ e ∷ [])
          ∙ (ap (λ (l : List (Option E)). l ++ offered xs) (sym (snoc es e))
              ∙ append_assoc (map some es) (some e ∷ []) (offered xs)))
  leaves-in_order (poll_step ∷ xs) [] = leaves-in_order xs []
  leaves-in_order (poll_step ∷ xs) (e ∷ es) =
      ap
        (λ (r : Option E × Query E).
          (value r.0 ++ all_leaving xs r.1) ++ (run_steps xs r.1).element)
        (poll-first (some e) (map some es))
      ∙ ap (λ (l : List (Option E)). some e ∷ l) (leaves-in_order xs es)
  leaves-in_order (clear_step ∷ xs) es =
      append_assoc (map some es) _ _
      ∙ ap (λ (l : List (Option E)). map some es ++ l) (leaves-in_order xs [])
