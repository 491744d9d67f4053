-- ===== src/Http/Copies.antt =====
-- The two copies of the retry loop in net/soehttp, in soehttp.go and service_client.go.
use soelib.Common.{
  ℕ, zero, suc, List, ◌∷◌, Option, none, some, Bool, true, Bool-cases, ◌≡◌, refl, ◌⊎◌, inl, inr,
  arith, ltb,
}
use soelib.Common.Int.{ℤ, pos, negsuc}
use soelib.Http.Config.{RetryConfig}
use soelib.Http.Wire.{
  Bytes, Failure, Reply, HttpClient, Attempts, RequestResult, Pass, WireEvent, Decoders, new_error,
  status_number, status_rune, call_failed, nothing_failed, read_failed, unreadable, content, broken,
  responded, slept, called, continue, return, is_success, at_most, below, retries, start,
}
use soelib.Http.Remote
use soelib.Http.Service

-- The error that a wrapping text wraps.
abbrev pub cause : Failure → Option Failure
cause (call_failed n e) = some e
cause (read_failed n e) = some e
cause (nothing_failed n) = none
cause (new_error t) = some (new_error t)
cause (status_number n) = some (status_number n)
cause (status_rune n) = some (status_rune n)

abbrev pub unwrapped : RequestResult → RequestResult
unwrapped o = elim o.err [ none ↦ o | some e ↦ record o { err = cause e } ]

-- The results and the events of a request.
abbrev pub observed : Option (RequestResult × Attempts) → Option (RequestResult × List WireEvent)
observed none = none
observed (some (o, t)) = some (o, t.events)

abbrev pub observed_unwrapped :
    Option (RequestResult × Attempts) → Option (RequestResult × List WireEvent)
observed_unwrapped none = none
observed_unwrapped (some (o, t)) = some (unwrapped o, t.events)

calculate_retry_wait_same :
    (c : Option RetryConfig) (a : ℕ)
    → Service.calculate_retry_wait c a ≡ Remote.calculate_retry_wait c a
unfolding Service.calculate_retry_wait Remote.calculate_retry_wait
calculate_retry_wait_same none a = refl
calculate_retry_wait_same (some c) a = refl

is_retryable_status_same :
    (c : Option RetryConfig) (code : ℕ)
    → Service.is_retryable_status c code ≡ Remote.is_retryable_status c code
unfolding Service.is_retryable_status Remote.is_retryable_status
is_retryable_status_same none code = refl
is_retryable_status_same (some c) code = refl

handle_error_with_body_same :
    {O : Type 0} (d : Decoders O) (code : ℕ) (body : Bytes)
    → Service.handle_error_with_body d code body ≡ Remote.handle_error_with_body d code body
unfolding Service.handle_error_with_body Remote.handle_error_with_body Service.handle_map_error
    Remote.handle_map_error
handle_error_with_body_same d code body = refl

abbrev Agree : Bool → Pass → Pass → Type 0
Agree b p q =
    ((t : Attempts) × (l : Option Failure) × (p ≡ continue t)
      × (q ≡ continue (record t { last_err = l }))
      × (b ≡ true))
    ⊎ ((o : RequestResult) × (t : Attempts) × (l : Option Failure) × (p ≡ return o t)
        × (q ≡ return (unwrapped o) (record t { last_err = l })))

module _ {O : Type 0} (d : Decoders O) (c : Option RetryConfig) (client : HttpClient) where
  judge-Agree :
      (a code : ℕ) (body : Bytes) (s : Attempts) (l : Option Failure)
      → Agree
          (below a (retries c))
          (Remote.judge d c client a code body s)
          (Service.judge d c client a code body (record s { last_err = l }))
  judge-Agree a code body s l = elim (Bool-cases (is_success code)) [
    | inl e ↦ rw e (inr (_, s, l, refl, refl))
    | inr e ↦
        rw (e, is_retryable_status_same c code, handle_error_with_body_same d code body)
          (elim (Bool-cases (Remote.is_retryable_status c code)) [
            | inr f ↦ rw f (inr (_, s, l, refl, refl))
            | inl f ↦ elim (Bool-cases (below a (retries c))) [
              | inl g ↦ rw (f, g) (inl (_, _, refl, refl, refl))
              | inr g ↦ rw (f, g) (inr (_, s, l, refl, refl))
            ]
          ])
  ]

  read_reply-Agree :
      (a : ℕ) (r : Reply) (s : Attempts) (l : Option Failure)
      → Agree
          (below a (retries c))
          (Remote.read_reply d c client a r s)
          (Service.read_reply d c client a r (record s { last_err = l }))
  read_reply-Agree a (broken e) s l = elim (Bool-cases (below a (retries c))) [
    | inl g ↦ rw g (inl (_, _, refl, refl, refl))
    | inr g ↦ rw g (inr (_, s, l, refl, refl))
  ]
  read_reply-Agree a (responded code (unreadable e)) s l = elim (Bool-cases (below a (retries c))) [
    | inl g ↦ rw g (inl (_, _, refl, refl, refl))
    | inr g ↦ rw g (inr (_, _, l, refl, refl))
  ]
  read_reply-Agree a (responded code (content body)) s l =
      judge-Agree a code body (record s { status_code = code }) l

  abbrev send : ℕ → Attempts → Attempts
  send a s = record s { unread = (client a s.unread).1; events = called s.unread ∷ s.events }

  send-Agree :
      (a : ℕ) (s : Attempts) (l : Option Failure)
      → Agree
          (below a (retries c))
          (Remote.read_reply d c client a (client a s.unread).0 (send a s))
          (Service.read_reply d c client a
            (client a s.unread).0
            (record (send a s) { last_err = l }))
  send-Agree a s l = read_reply-Agree a (client a s.unread).0 (send a s) l

  pass-Agree :
      (a : ℕ) (s : Attempts) (l : Option Failure)
      → Agree
          (below a (retries c))
          (Remote.pass d c client a s)
          (Service.pass d c client a (record s { last_err = l }))
  unfolding Remote.pass Service.pass
  pass-Agree a s l = elim (Bool-cases (ltb 0 a)) [
    | inr e ↦ rw e (send-Agree a s l)
    | inl e ↦
        let slept_first = slept (Remote.calculate_retry_wait c a) ∷ s.events in
        rw (e, calculate_retry_wait_same c a) (send-Agree a (record s { events = slept_first }) l)
  ]

  below→at_most : (a : ℕ) (m : ℤ) → below a m ≡ true → at_most (suc a) m ≡ true
  below→at_most a (pos n) h = ground arith
  below→at_most a (negsuc n) h = h

  run_loop_same :
      (fuel a : ℕ) (s : Attempts) (l : Option Failure)
      → at_most a (retries c) ≡ true
      → observed (Service.run_loop d c client fuel a (record s { last_err = l }))
        ≡ observed_unwrapped (Remote.run_loop d c client fuel a s)
  run_loop_same zero a s l h = refl
  run_loop_same (suc fuel) a s l h = elim (pass-Agree a s l) [
    | inl x ↦
        rw (h, x.2, x.3) (run_loop_same fuel (suc a) x.0 x.1 (below→at_most a (retries c) x.4))
    | inr x ↦ rw (h, x.3, x.4) refl
  ]

  -- For the same request, the copy of a service client gets the same body, status and number of
  -- attempts as that of a remote service, and has waited and sent the same; its error is the one
  -- that the remote service's text wraps.
  pub do_request_same :
      (fuel : ℕ) (body : Bytes)
      → observed (Service.do_request d c client fuel body)
        ≡ observed_unwrapped (Remote.do_request d c client fuel body)
  unfolding Service.do_request Remote.do_request
  do_request_same zero body = refl
  do_request_same (suc fuel) body = elim (Bool-cases (at_most 0 (retries c))) [
    | inl e ↦ run_loop_same (suc fuel) 0 (start body) none e
    | inr e ↦ rw e refl
  ]
