-- ===== src/Http/Replies.antt =====
-- Which reply the retry loop of net/soehttp/soehttp.go returns, and what it has sent and waited by
-- then: the loop against a description of it by attempts.
use soelib.Common.{
  ℕ, zero, suc, ◌+◌, ◌≤◌, ◌<◌, List, [], ◌∷◌, Option, none, some, Bool, true, false, not, ◌&&◌,
  lt→ltb, if◌then◌else◌, Bool-cases, ◌≡◌, refl, sym, ◌∙◌, ap, replicate, ◌++◌, ap₂, inl, inr, arith,
}
use soelib.Common.Int.{ℤ, pos, negsuc}
use soelib.Http.Config.{RetryConfig}
use soelib.Http.Wire.{
  Bytes, Reply, HttpClient, Attempts, RequestResult, WireEvent, Decoders, new_error, call_failed,
  read_failed, unreadable, content, broken, responded, slept, called, continue, return, is_success,
  at_most, below, retries, start,
}
use soelib.Http.Remote.{
  calculate_retry_wait, is_retryable_status, handle_error_with_body, wait, read_reply, pass,
  run_loop, do_request,
}

-- What an attempt finds unread of the body, and the reply that it gets.
unfoldable pub unread_at : HttpClient → Bytes → ℕ → Bytes
unread_at client body zero = body
unread_at client body (suc a) = (client a (unread_at client body a)).1

abbrev pub reply_at : HttpClient → Bytes → ℕ → Reply
reply_at client body a = (client a (unread_at client body a)).0

-- A reply that is worth another attempt: none was got, it was cut off, or its status says so.
unfoldable pub is_retried : Option RetryConfig → Reply → Bool
is_retried c (broken e) = true
is_retried c (responded code (unreadable e)) = true
is_retried c (responded code (content body)) = not (is_success code) && is_retryable_status c code

-- What the events are after an attempt: a wait before each but the first, then the call.
unfoldable pub history : Option RetryConfig → HttpClient → Bytes → ℕ → List WireEvent
history c client body zero = called body ∷ []
history c client body (suc a) =
    called (unread_at client body (suc a))
    ∷ slept (calculate_retry_wait c (suc a))
    ∷ history c client body a

-- What is answered when the attempt of a number is the last.
unfoldable pub answer : {O : Type 0} → Decoders O → Option RetryConfig → ℕ → Reply → RequestResult
answer d c a (broken e) = record {
  body = none;
  status = 0;
  retry_count = pos a;
  err = some (call_failed (retries c) e);
}
answer d c a (responded code (unreadable e)) = record {
  body = none;
  status = code;
  retry_count = pos a;
  err = some (read_failed (retries c) e);
}
answer d c a (responded code (content body)) =
    if is_success code
    then record { body = some body; status = code; retry_count = pos a; err = none }
    else record {
      body = none;
      status = code;
      retry_count = pos a;
      err = some (new_error (handle_error_with_body d code body));
    }

prior : Option RetryConfig → HttpClient → Bytes → ℕ → List WireEvent
prior c client body zero = []
prior c client body (suc a) = slept (calculate_retry_wait c (suc a)) ∷ history c client body a

history-prior :
    (c : Option RetryConfig) (client : HttpClient) (body : Bytes) (a : ℕ)
    → history c client body a ≡ called (unread_at client body a) ∷ prior c client body a
unfolding history prior unread_at
history-prior c client body zero = refl
history-prior c client body (suc a) = refl

at_most→below :
    (a b : ℕ) (m : ℤ) → a < b → at_most b m ≡ true → (at_most a m ≡ true) × (below a m ≡ true)
at_most→below a b (pos n) h e = (ground arith, ground arith)
at_most→below a b (negsuc n) h e = absurd (ground arith)

module _ {O : Type 0} (d : Decoders O) (c : Option RetryConfig) (client : HttpClient) where
  -- A retried reply below the limit goes on to the next attempt.
  read_reply-continue :
      (a : ℕ) (r : Reply) (s : Attempts)
      → is_retried c r ≡ true
      → below a (retries c) ≡ true
      → (t : Attempts) × (read_reply d c client a r s ≡ continue t)
        × (t.unread ≡ s.unread)
        × (t.events ≡ s.events)
  unfolding is_retried
  read_reply-continue a (broken e) s h b = rw b (_, refl, refl, refl)
  read_reply-continue a (responded code (unreadable e)) s h b = rw b (_, refl, refl, refl)
  read_reply-continue a (responded code (content body)) s h b =
      elim (Bool-cases (is_success code)) [
        | inl e ↦ absurd (ground (arith, h, e))
        | inr e ↦ let f = (rw e at h) in rw (e, f, b) (_, refl, refl, refl)
      ]

  -- A reply that is not retried, or that comes at the limit, is answered.
  read_reply-return :
      (a : ℕ) (r : Reply) (s : Attempts)
      → is_retried c r && below a (retries c) ≡ false
      → (t : Attempts) × (read_reply d c client a r s ≡ return (answer d c a r) t)
        × (t.events ≡ s.events)
  unfolding is_retried answer
  read_reply-return a (broken e) s b = rw b (_, refl, refl)
  read_reply-return a (responded code (unreadable e)) s b = rw b (_, refl, refl)
  read_reply-return a (responded code (content body)) s b = elim (Bool-cases (is_success code)) [
    | inl e ↦ rw e (_, refl, refl)
    | inr e ↦ let f = (rw e at b) in rw (e, f) (_, refl, refl)
  ]

  wait-unread : (a : ℕ) (s : Attempts) → (wait d c client a s).unread ≡ s.unread
  wait-unread zero s = refl
  wait-unread (suc a) s = rw (lt→ltb 0 (suc a) (omega arith)) refl

  wait-events :
      (a : ℕ) (s : Attempts)
      → (wait d c client (suc a) s).events ≡ slept (calculate_retry_wait c (suc a)) ∷ s.events
  wait-events a s = rw (lt→ltb 0 (suc a) (omega arith)) refl

  pass-continue :
      (body : Bytes) (a : ℕ) (s : Attempts)
      → s.unread ≡ unread_at client body a
      → (wait d c client a s).events ≡ prior c client body a
      → is_retried c (reply_at client body a) ≡ true
      → below a (retries c) ≡ true
      → (t : Attempts) × (pass d c client a s ≡ continue t)
        × (t.unread ≡ unread_at client body (suc a))
        × (t.events ≡ history c client body a)
  unfolding pass unread_at
  pass-continue body a s u v h b =
      let w = wait d c client a s in
      let eu = wait-unread a s ∙ u in
      let sent = client a w.unread in
      let r =
        read_reply-continue a sent.0
          (record w { unread = sent.1; events = called w.unread ∷ w.events })
          (ap (λ (x : Bytes). is_retried c (client a x).0) eu ∙ h) b in
      (
        r.0,
        r.1,
        r.2 ∙ ap (λ (x : Bytes). (client a x).1) eu,
        r.3
            ∙ ap₂ (λ (x : Bytes) (es : List WireEvent). called x ∷ es) eu v
            ∙ sym (history-prior c client body a),
      )

  pass-return :
      (body : Bytes) (a : ℕ) (s : Attempts)
      → s.unread ≡ unread_at client body a
      → (wait d c client a s).events ≡ prior c client body a
      → is_retried c (reply_at client body a) && below a (retries c) ≡ false
      → (t : Attempts) × (pass d c client a s ≡ return (answer d c a (reply_at client body a)) t)
        × (t.events ≡ history c client body a)
  unfolding pass
  pass-return body a s u v h =
      let w = wait d c client a s in
      let eu = wait-unread a s ∙ u in
      let sent = client a w.unread in
      let r =
        read_reply-return a sent.0
          (record w { unread = sent.1; events = called w.unread ∷ w.events })
          (ap (λ (x : Bytes). is_retried c (client a x).0 && below a (retries c)) eu ∙ h) in
      (
        r.0,
        r.1 ∙ ap (λ (x : Bytes). return (answer d c a (client a x).0) r.0) eu,
        r.2
            ∙ ap₂ (λ (x : Bytes) (es : List WireEvent). called x ∷ es) eu v
            ∙ sym (history-prior c client body a),
      )

  -- From attempt `a` on, when the replies of `j` attempts are retried, up to attempt `z`.
  run_loop-answer :
      (body : Bytes) (fuel j a z : ℕ) (s : Attempts)
      → j < fuel
      → a + j ≡ z
      → s.unread ≡ unread_at client body a
      → (wait d c client a s).events ≡ prior c client body a
      → ((b : ℕ) → a ≤ b → b < z → is_retried c (reply_at client body b) ≡ true)
      → at_most z (retries c) ≡ true
      → is_retried c (reply_at client body z) && below z (retries c) ≡ false
      → (t : Attempts) × (run_loop d c client fuel a s
          ≡ some (answer d c z (reply_at client body z), t))
        × (t.events ≡ history c client body z)
  unfolding prior
  run_loop-answer body zero j a z s f g u v h m e = absurd (omega arith)
  run_loop-answer body (suc fuel) zero a z s f g u v h m e =
      let here : z ≡ a = omega arith in
      let m' = (rw here at m) in
      let e' = (rw here at e) in
      let r = pass-return body a s u v e' in rw (here, m', r.1) (r.0, refl, r.2)
  run_loop-answer body (suc fuel) (suc j) a z s f g u v h m e =
      let lower = at_most→below a z (retries c) (omega arith) m in
      let q = pass-continue body a s u v (h a (omega arith) (omega arith)) lower.1 in
      let rest =
        run_loop-answer body fuel j (suc a) z q.0 (omega arith) (omega arith) q.2
          (wait-events a q.0
            ∙ ap (λ (es : List WireEvent). slept (calculate_retry_wait c (suc a)) ∷ es) q.3)
          (λ b p q. h b (omega arith) q) m e in
      rw (lower.0, q.1) rest

  -- `doRequest` answers with the reply of the first attempt that is not retried or that is the last
  -- one allowed: its body and no error for a success, else the error; by then it has sent what each
  -- attempt found unread of the body, and waited before each attempt but the first.
  pub do_request-answer :
      (body : Bytes) (z : ℕ)
      → ((b : ℕ) → b < z → is_retried c (reply_at client body b) ≡ true)
      → at_most z (retries c) ≡ true
      → is_retried c (reply_at client body z) && below z (retries c) ≡ false
      → (t : Attempts) × (do_request d c client (suc z) body
          ≡ some (answer d c z (reply_at client body z), t))
        × (t.events ≡ history c client body z)
  unfolding do_request unread_at prior
  do_request-answer body z h m e =
      run_loop-answer body (suc z) z 0 z (start body) (omega arith) (omega arith) refl refl
        (λ b p q. h b q) m e

-- The bodies of the calls, the newest first.
abbrev pub sent : List WireEvent → List Bytes
sent [] = []
sent (slept w ∷ es) = sent es
sent (called b ∷ es) = b ∷ sent es

sent-history :
    (c : Option RetryConfig) (client : HttpClient) (body : Bytes)
    → ((a : ℕ) (b : Bytes) → (client a b).1 ≡ [])
    → (z : ℕ) → sent (history c client body z) ≡ replicate z [] ++ body ∷ []
unfolding history unread_at
sent-history c client body reads zero = refl
sent-history c client body reads (suc z) =
    ap₂ (λ (b : Bytes) (bs : List Bytes). b ∷ bs) (reads z (unread_at client body z))
      (sent-history c client body reads z)

-- With a client that reads a body to its end, every attempt but the first sends an empty body.
pub do_request-resends :
    {O : Type 0} (d : Decoders O) (c : Option RetryConfig) (client : HttpClient) (body : Bytes)
    (z : ℕ)
    → ((a : ℕ) (b : Bytes) → (client a b).1 ≡ [])
    → ((b : ℕ) → b < z → is_retried c (reply_at client body b) ≡ true)
    → at_most z (retries c) ≡ true
    → is_retried c (reply_at client body z) && below z (retries c) ≡ false
    → (p : RequestResult × Attempts) × (do_request d c client (suc z) body ≡ some p)
      × (sent p.1.events ≡ replicate z [] ++ body ∷ [])
do_request-resends d c client body z reads h m e =
    let r = do_request-answer d c client body z h m e in
    ((_, r.0), r.1, ap sent r.2 ∙ sent-history c client body reads z)
