-- ===== src/TenantDb/Removing.antt =====
-- Which connections of the cache of common/db/tenantdb may be closed.
use mathlib.Core.Option.{some-ne-none}
use soelib.Common.{
  ℕ, ◌≤◌, true, false, Option, none, some, ◌==◌, ==_iff, Bool-cases, ◌≡◌, ◌≢◌, ◌⊎◌, inl, inr, refl,
  sym, ap, ◌∙◌, arith,
}
use soelib.Common.Text.{String, text_eq}
use soelib.KeyLock.Locks.{update}
use soelib.KeyLock.Counting.{some-value}
use soelib.TenantDb.Cache.{
  Removal, finished, ranged, dropping, loaded, ended, Store, put, store_new, remove, close,
  at_removal, StoreStep, ranges, passes, drops, closes, spares, loads, ends, deletes,
}

pub update-cases {ℓ} :
    {A : Type ℓ} (f : ℕ → A) (i : ℕ) (v : A) (j : ℕ) (w : A)
    → update f i v j ≡ w
    → ((j ≡ i) × (v ≡ w)) ⊎ ((j ≢ i) × (f j ≡ w))
update-cases f i v j w e = elim (Bool-cases (j == i)) [
  | inl same ↦ inl ((==_iff j i).0 same, rw same at e)
  | inr other ↦ inr (λ s. absurd (ground (arith, other, s)), rw other at e)
]

pub put-cases :
    (c : String → Option ℕ) (t : String) (v : Option ℕ) (k : String) (w : Option ℕ)
    → put c t v k ≡ w
    → ((k ≡ t) × (v ≡ w)) ⊎ ((k ≢ t) × (c k ≡ w))
put-cases c t v k w e = elim (Bool-cases (text_eq.beq k t)) [
  | inl same ↦ inl ((text_eq.beq_iff k t).0 same, rw same at e)
  | inr other ↦
      inr (λ s. absurd (ground (arith, sym other ∙ (text_eq.beq_iff k t).1 s)), rw other at e)
]

-- The tenant and the connection that a goroutine takes out.
abbrev target : Removal → Option (String × ℕ)
target finished = none
target (ranged t d) = some (t, d)
target (dropping t d) = some (t, d)
target (loaded t d) = some (t, d)
target (ended t d) = some (t, d)

pub record IsLive (s : Store) : Type 0 where
  pub new_owner : (d : ℕ) → s.next ≤ d → s.tenant_of d ≡ none
  pub new_closed : (d : ℕ) → s.next ≤ d → s.closed d ≡ false
  pub owned : (t : String) (d : ℕ) → s.cache t ≡ some d → s.tenant_of d ≡ some t
  pub targets :
      (i : ℕ) (t : String) (d : ℕ) → target (s.removals i) ≡ some (t, d) → s.tenant_of d ≡ some t
  pub dropped : (i : ℕ) (t : String) (d : ℕ) → s.removals i ≡ dropping t d → s.cache t ≢ some d
  pub waits :
      (t : String) (d : ℕ)
      → s.cache t ≡ some d
      → s.closed d ≡ true
      → (i : ℕ) × (s.removals i ≡ ended t d)

-- A goroutine goes on that is not the one that a closed connection of the cache waits for.
at_removal-IsLive :
    (s : Store) (i : ℕ) (v : Removal)
    → IsLive s
    → ((t : String) (d : ℕ) → s.removals i ≡ ended t d → s.cache t ≢ some d)
    → ((t : String) (d : ℕ) → target v ≡ some (t, d) → s.tenant_of d ≡ some t)
    → ((t : String) (d : ℕ) → v ≡ dropping t d → s.cache t ≢ some d)
    → IsLive (at_removal s i v)
at_removal-IsLive s i v h free owner drop = record {
  new_owner = h.new_owner;
  new_closed = h.new_closed;
  owned = h.owned;
  targets = λ j t d e. elim (update-cases s.removals i v j _ refl) [
    | inl x ↦ owner t d (ap target x.1 ∙ e)
    | inr x ↦ h.targets j t d (ap target x.1 ∙ e)
  ];
  dropped = λ j t d e. elim (update-cases s.removals i v j _ e) [
    | inl x ↦ drop t d x.1
    | inr x ↦ h.dropped j t d x.1
  ];
  waits = λ t d c e.
      let w = h.waits t d c e in
      elim (Bool-cases (w.0 == i)) [
        | inl same ↦ absurd (free t d (ap s.removals (sym ((==_iff w.0 i).0 same)) ∙ w.1) c)
        | inr other ↦ (w.0, rw other w.1)
      ];
}

remove-cache :
    (s : Store) (t k : String) (d : ℕ) → (remove s t).cache k ≡ some d → s.cache k ≡ some d
remove-cache s t k d e = elim (put-cases s.cache t none k _ e) [
  | inl x ↦ absurd (some-ne-none d (sym x.1))
  | inr x ↦ x.1
]

remove-ne : (s : Store) (t : String) (d : ℕ) → (remove s t).cache t ≢ some d
remove-ne s t d e = elim (put-cases s.cache t none t _ e) [
  | inl x ↦ some-ne-none d (sym x.1)
  | inr x ↦ x.0 refl
]

remove-IsLive : (s : Store) (t : String) → IsLive s → IsLive (remove s t)
remove-IsLive s t h = record {
  new_owner = h.new_owner;
  new_closed = h.new_closed;
  owned = λ k d e. h.owned k d (remove-cache s t k d e);
  targets = h.targets;
  dropped = λ i k d r e. h.dropped i k d r (remove-cache s t k d e);
  waits = λ k d e. h.waits k d (remove-cache s t k d e);
}

owner-inj :
    (s : Store) (t u : String) (d : ℕ) → s.tenant_of d ≡ some t → s.tenant_of d ≡ some u → t ≡ u
owner-inj s t u d p q = ground (arith, sym p ∙ q)

-- A connection is closed that the cache does not have, or that `UpdateMapV2` deletes next.
close-IsLive :
    (s : Store) (u : String) (d : ℕ)
    → IsLive s
    → s.tenant_of d ≡ some u
    → ((t : String) → s.cache t ≡ some d → (i : ℕ) × (s.removals i ≡ ended t d))
    → IsLive (close s d)
close-IsLive s u d h own wait = record {
  new_owner = h.new_owner;
  new_closed = λ e n. elim (Bool-cases (e == d)) [
    | inl same ↦
        absurd
          (some-ne-none u (sym own ∙ ap s.tenant_of (sym ((==_iff e d).0 same)) ∙ h.new_owner e n))
    | inr other ↦ rw other (h.new_closed e n)
  ];
  owned = h.owned;
  targets = h.targets;
  dropped = h.dropped;
  waits = λ t e c x. elim (update-cases s.closed d true e _ x) [
    | inl y ↦ rw y.0 (wait t (c ∙ ap some y.0))
    | inr y ↦ h.waits t e c y.1
  ];
}

newly-owner :
    (s : Store) (t k : String) (d : ℕ) → k ≡ t → s.next ≡ d → (store_new s t).tenant_of d ≡ some k
unfolding store_new
newly-owner s t k d e n = ground (arith, e, n)

kept-owner :
    (s : Store) (t k : String) (d : ℕ)
    → IsLive s
    → s.tenant_of d ≡ some k
    → (store_new s t).tenant_of d ≡ some k
unfolding store_new
kept-owner s t k d h e = elim (update-cases s.tenant_of s.next (some t) d _ refl) [
  | inl x ↦ absurd (some-ne-none k (sym e ∙ h.new_owner d (omega (arith, x.0))))
  | inr x ↦ sym x.1 ∙ e
]

-- A new connection is not one that a goroutine takes out.
pub store_new-IsLive : (s : Store) (t : String) → IsLive s → IsLive (store_new s t)
unfolding store_new
store_new-IsLive s t h = record {
  new_owner = λ d n. elim (update-cases s.tenant_of s.next (some t) d _ refl) [
    | inl x ↦ absurd (omega (arith, x.0))
    | inr x ↦ sym x.1 ∙ h.new_owner d (omega arith)
  ];
  new_closed = λ d n. h.new_closed d (omega arith);
  owned = λ k d e. elim (put-cases s.cache t (some s.next) k _ e) [
    | inl x ↦ newly-owner s t k d x.0 (some-value x.1)
    | inr x ↦ kept-owner s t k d h (h.owned k d x.1)
  ];
  targets = λ i k d e. kept-owner s t k d h (h.targets i k d e);
  dropped = λ i k d r e. elim (put-cases s.cache t (some s.next) k _ e) [
    | inl x ↦
        some-ne-none k
          (sym (h.targets i k d (ap target r)) ∙ h.new_owner d (omega (arith, some-value x.1)))
    | inr x ↦ h.dropped i k d r x.1
  ];
  waits = λ k d e c. elim (put-cases s.cache t (some s.next) k _ e) [
    | inl x ↦ absurd (cc (c, h.new_closed d (omega (arith, some-value x.1))))
    | inr x ↦ h.waits k d x.1 c
  ];
}

not_ended :
    (s : Store) (i : ℕ) (r : Removal)
    → s.removals i ≡ r
    → ((t : String) (d : ℕ) → r ≢ ended t d)
    → (t : String) (d : ℕ) → s.removals i ≡ ended t d
    → s.cache t ≢ some d
not_ended s i r e n t d q c = n t d (sym e ∙ q)

module _ {s : Store} (h : IsLive s) (i : ℕ) (t : String) (d : ℕ) where
  found :
      (r : Removal)
      → target r ≡ some (t, d)
      → s.cache t ≡ some d
      → (k : String) (e : ℕ) → target r ≡ some (k, e)
      → s.tenant_of e ≡ some k
  found r p c k e q = h.owned k e (ground (arith, c, p, q))

  same_target :
      {r : Removal}
      → s.removals i ≡ r
      → (k : String) (e : ℕ) → target r ≡ some (k, e)
      → s.tenant_of e ≡ some k
  same_target r k e q = h.targets i k e (ap target r ∙ q)

  stops-IsLive :
      {r : Removal}
      → s.removals i ≡ r
      → ((k : String) (e : ℕ) → r ≢ ended k e)
      → IsLive (at_removal s i finished)
  stops-IsLive r n =
      at_removal-IsLive s i finished h (not_ended s i _ r n) (λ k e q. cc) (λ k e q. cc)

  drops-IsLive : s.removals i ≡ ranged t d → IsLive (at_removal (remove s t) i (dropping t d))
  drops-IsLive r =
      at_removal-IsLive (remove s t) i (dropping t d) (remove-IsLive s t h)
        (not_ended (remove s t) i _ r (λ k e q. cc)) (same_target r)
        (λ k e q c. remove-ne s t e (ground (arith, q, c)))

  closes-IsLive : s.removals i ≡ dropping t d → IsLive (at_removal (close s d) i finished)
  closes-IsLive r =
      let own = h.targets i t d (ap target r) in
      close-IsLive (at_removal s i finished) t d (stops-IsLive r (λ k e q. cc)) own
        (λ k c. absurd (h.dropped i t d r (ap s.cache (owner-inj s t k d own (h.owned k d c)) ∙ c)))

  ends-IsLive : s.removals i ≡ loaded t d → IsLive (at_removal (close s d) i (ended t d))
  ends-IsLive r =
      let own = h.targets i t d (ap target r) in
      close-IsLive (at_removal s i (ended t d)) t d
        (at_removal-IsLive s i (ended t d) h (not_ended s i _ r (λ k e q. cc)) (same_target r)
          (λ k e q. cc))
        own (λ k c. (i, ground (arith, owner-inj s t k d own (h.owned k d c))))

  deletes-IsLive : s.removals i ≡ ended t d → IsLive (at_removal (remove s t) i finished)
  deletes-IsLive r =
      at_removal-IsLive (remove s t) i finished (remove-IsLive s t h)
        (λ k e q c. remove-ne s t e (ground (arith, r, q, c))) (λ k e q. cc) (λ k e q. cc)

pub StoreStep-IsLive : {s t : Store} → StoreStep s t → IsLive s → IsLive t
StoreStep-IsLive {s} (ranges i t d r c) h =
    at_removal-IsLive s i (ranged t d) h (not_ended s i finished r (λ k e q. cc))
      (found h i t d (ranged t d) refl c) (λ k e q. cc)
StoreStep-IsLive (passes i t d r) h = stops-IsLive h i t d r (λ k e q. cc)
StoreStep-IsLive (drops i t d r) h = drops-IsLive h i t d r
StoreStep-IsLive (closes i t d r) h = closes-IsLive h i t d r
StoreStep-IsLive (spares i t d r) h = stops-IsLive h i t d r (λ k e q. cc)
StoreStep-IsLive {s} (loads i t d r c) h =
    at_removal-IsLive s i (loaded t d) h (not_ended s i finished r (λ k e q. cc))
      (found h i t d (loaded t d) refl c) (λ k e q. cc)
StoreStep-IsLive (ends i t d r) h = ends-IsLive h i t d r
StoreStep-IsLive (deletes i t d r) h = deletes-IsLive h i t d r
