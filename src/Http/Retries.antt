-- ===== src/Http/Retries.antt =====
-- What the retry loop of net/soehttp/soehttp.go does: the attempts it makes, what it sends and waits
-- in each, and which reply it returns.
use soelib.Common.{
  ℕ, zero, suc, ◌+◌, ◌≤◌, ◌<◌, List, [], ◌∷◌, Option, some, true, false, ◌&&◌, Bool-cases, ◌≡◌,
  refl, ◌∙◌, ap, ◌⊎◌, inl, inr, arith, leb→le, lt→ltb, ◌-◌,
}
use soelib.Common.Int.{ℤ, pos, negsuc}
use soelib.Http.Config.{RetryConfig}
use soelib.Http.Wire.{
  Bytes, Reply, HttpClient, Attempts, RequestResult, Pass, WireEvent, Decoders, unreadable, content,
  broken, responded, slept, called, continue, return, is_success, at_most, below, retries, start,
}
use soelib.Http.Remote.{is_retryable_status, wait, judge, read_reply, pass, run_loop, do_request}

-- The number of attempts that the limit allows.
abbrev pub allowed : ℤ → ℕ
allowed (pos n) = suc n
allowed (negsuc n) = 0

abbrev pub calls : List WireEvent → ℕ
calls [] = 0
calls (slept w ∷ es) = calls es
calls (called b ∷ es) = suc (calls es)

abbrev state_of : Pass → Attempts
state_of (continue t) = t
state_of (return o t) = t

pub Pass-cases :
    (p : Pass)
    → ((t : Attempts) × (p ≡ continue t))
      ⊎ ((o : RequestResult) × (t : Attempts) × (p ≡ return o t))
Pass-cases (continue t) = inl (t, refl)
Pass-cases (return o t) = inr (o, t, refl)

at_most→lt : (a : ℕ) (m : ℤ) → at_most a m ≡ true → a < allowed m
at_most→lt a (pos n) h = omega (arith, leb→le a n h)
at_most→lt a (negsuc n) h = ground arith

not_at_most : (a : ℕ) (m : ℤ) → at_most a m ≡ false → allowed m ≤ a
not_at_most a (pos n) h = ground arith
not_at_most a (negsuc n) h = omega arith

module _ {O : Type 0} (d : Decoders O) (c : Option RetryConfig) (client : HttpClient) where
  calls-wait : (a : ℕ) (s : Attempts) → calls (wait d c client a s).events ≡ calls s.events
  calls-wait zero s = refl
  calls-wait (suc a) s = rw (lt→ltb 0 (suc a) (omega arith)) refl

  judge-events :
      (a code : ℕ) (body : Bytes) (s : Attempts)
      → (state_of (judge d c client a code body s)).events ≡ s.events
  judge-events a code body s = elim (Bool-cases (is_success code)) [
    | inl e ↦ rw e refl
    | inr e ↦ rw e (elim (Bool-cases (is_retryable_status c code && below a (retries c))) [
      | inl f ↦ rw f refl
      | inr f ↦ rw f refl
    ])
  ]

  read_reply-events :
      (a : ℕ) (r : Reply) (s : Attempts)
      → (state_of (read_reply d c client a r s)).events ≡ s.events
  read_reply-events a (broken e) s = elim (Bool-cases (below a (retries c))) [
    | inl f ↦ rw f refl
    | inr f ↦ rw f refl
  ]
  read_reply-events a (responded code (unreadable e)) s = elim (Bool-cases (below a (retries c))) [
    | inl f ↦ rw f refl
    | inr f ↦ rw f refl
  ]
  read_reply-events a (responded code (content body)) s =
      judge-events a code body (record s { status_code = code })

  calls-pass :
      (a : ℕ) (s : Attempts) → calls (state_of (pass d c client a s)).events ≡ suc (calls s.events)
  unfolding pass
  calls-pass a s =
      let t = wait d c client a s in
      let sent = client a t.unread in
      ap calls (
        read_reply-events a sent.0
          (record t { unread = sent.1; events = called t.unread ∷ t.events }))
      ∙ ap suc (calls-wait a s)

  run_loop-returns :
      (fuel a : ℕ) (s : Attempts)
      → allowed (retries c) < a + fuel
      → a ≤ allowed (retries c)
      → (p : RequestResult × Attempts) × (run_loop d c client fuel a s ≡ some p)
        × (calls p.1.events ≤ calls s.events + (allowed (retries c) - a))
  run_loop-returns zero a s h k = absurd (omega arith)
  run_loop-returns (suc fuel) a s h k =
      let counted = calls-pass a s in
      elim (Bool-cases (at_most a (retries c))) [
        | inr e ↦ rw e ((_, s), refl, omega arith)
        | inl e ↦
            let lt = at_most→lt a (retries c) e in
            elim (Pass-cases (pass d c client a s)) [
              | inl x ↦
                  let rest = run_loop-returns fuel (suc a) x.0 (omega arith) (omega arith) in
                  let more = (rw x.1 at counted) in
                  rw (e, x.1) (rest.0, rest.1, omega (arith, rest.2, more, lt))
              | inr x ↦
                  let more = (rw x.2 at counted) in
                  rw (e, x.2) ((x.0, x.1), refl, omega (arith, more, lt))
            ]
      ]

  -- `doRequest` returns: passes for one more than the attempts that the limit allows are enough, and
  -- it calls the client at most once for each attempt that the limit allows.
  pub do_request-returns :
      (body : Bytes)
      → (p : RequestResult × Attempts) × (do_request d c client (suc (allowed (retries c))) body
          ≡ some p)
        × (calls p.1.events ≤ allowed (retries c))
  unfolding do_request
  do_request-returns body =
      let r =
        run_loop-returns (suc (allowed (retries c))) 0 (start body) (omega arith) (omega arith) in
      (r.0, r.1, omega (arith, r.2))
