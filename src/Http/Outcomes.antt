-- ===== src/Http/Outcomes.antt =====
-- What the calls of net/soehttp return to their callers: with a circuit breaker, and for entities.
use soelib.Common.{
  List, ◌∷◌, Option, none, some, Bool, true, false, not, ◌&&◌, Option-cases, ◌≡◌, ◌↔◌, ◌⊎◌, ◌≢◌,
  refl, ap, ◌∙◌, inl, inr, arith,
}
use mathlib.Core.Option.{some-ne-none}
use soelib.Common.Text.{String, is_empty}
use soelib.Http.Config.{AlarmConfig}
use soelib.Http.Commands.{Globals, should_use_hystrix}
use soelib.Http.Wire.{Bytes, Failure, RequestResult, new_error}
use soelib.Http.Calls.{
  Session, Action, HystrixDo, send_fallback_alert, request_action, fallback_action, breaker_name,
  do_with, EntityResult, ok, error, no_information, read_entity, send_entity,
}

-- What hystrix documents of `Do`: it returns no error where the run has ended with none; else the
-- fallback has run once, on the session before the run or after it, and `Do` returns an error exactly
-- if the fallback has returned one.
unfoldable pub IsSynchronous : HystrixDo → Type 0
IsSynchronous hystrix_do =
    (name : String) (run : Action) (fallback : Failure → Action) (s : Session)
    → ((hystrix_do name run fallback s ≡ ((run s).0, none)) × ((run s).1 ≡ none))
      ⊎ ((e : Failure) × (t : Session) × ((t ≡ s) ⊎ (t ≡ (run s).0))
          × ((hystrix_do name run fallback s).0 ≡ (fallback e t).0)
          × (((hystrix_do name run fallback s).1 ≡ none) ↔ ((fallback e t).1 ≡ none)))

-- The alarm is set up.
abbrev pub alarms : AlarmConfig → Bool
alarms a = a.send_error_to_wx && not (is_empty a.chat_id) && not (is_empty a.api_path)

alerts-send :
    (a : AlarmConfig) (content : String) (t : Session)
    → alarms a ≡ true
    → (send_fallback_alert a content t).alerts ≡ content ∷ t.alerts
alerts-send a content t on = rw on refl

alerts-kept :
    (o : RequestResult) (s t : Session)
    → (t ≡ s) ⊎ (t ≡ (request_action o s).0)
    → t.alerts ≡ s.alerts
alerts-kept o s t (inl e) = ap (λ (x : Session). x.alerts) e
alerts-kept o s t (inr e) = ap (λ (x : Session). x.alerts) e

-- A call through a circuit breaker returns no error exactly if it has sent no alert, and then its
-- body and status are those of the request, which has ended without an error; otherwise it has sent
-- one alert. The alarm is set up, and the breaker does what it documents.
pub do_with-alerts :
    (hystrix_do : HystrixDo) (g : Globals) (enable : Option Bool) (command alert operation : String)
    (o : RequestResult) (s : Session)
    → IsSynchronous hystrix_do
    → should_use_hystrix enable g ≡ true
    → alarms g.alarm ≡ true
    → (((do_with hystrix_do g enable command alert operation o s).1 ≡ none)
        × ((do_with hystrix_do g enable command alert operation o s).0 ≡ (request_action o s).0)
        × (o.err ≡ none))
      ⊎ ((e : Failure) × ((do_with hystrix_do g enable command alert operation o s).1 ≡ some e)
          × ((do_with hystrix_do g enable command alert operation o s).0.alerts ≡ alert ∷ s.alerts))
unfolding do_with IsSynchronous
do_with-alerts hystrix_do g enable command alert operation o s sync through on =
    let name = breaker_name command operation in
    let ended = hystrix_do name (request_action o) (fallback_action g.alarm alert) s in
    rw through (elim (sync name (request_action o) (fallback_action g.alarm alert) s) [
      | inl x ↦ inl (ap (λ p. p.1) x.0, ap (λ p. p.0) x.0, x.1)
      | inr x ↦ elim (Option-cases ended.1) [
        | inl y ↦ absurd (some-ne-none (new_error "fallback") (x.4.0 y))
        | inr y ↦ inr (
          y.0,
          y.1,
          ap (λ (t : Session). t.alerts) x.3
              ∙ alerts-send g.alarm alert x.1 on
              ∙ ap (λ (l : List String). alert ∷ l) (alerts-kept o s x.1 x.2),
        )
      ]
    ])

EntityResult-cases :
    {A : Type 0} (x : EntityResult A) → ((a : A) × (x ≡ ok a)) ⊎ ((e : Failure) × (x ≡ error e))
EntityResult-cases (ok a) = inl (a, refl)
EntityResult-cases (error e) = inr (e, refl)

is_ok : {A : Type 0} → EntityResult A → Bool
is_ok (ok a) = true
is_ok (error e) = false

error-ne-ok : {A : Type 0} (e : Failure) (a : A) → error e ≢ ok a
unfolding is_ok
error-ne-ok e a h = absurd (ground (arith, ap is_ok h))

read_entity-ok :
    {V R : Type 0} (marshal : V → EntityResult Bytes) (unmarshal : Bytes → EntityResult R)
    (answer : Option Bytes × Option Failure) (r : R)
    → read_entity marshal unmarshal answer ≡ ok r
    → (body : Bytes) × (answer ≡ (some body, none)) × (unmarshal body ≡ ok r)
read_entity-ok marshal unmarshal (body, some e) r h = absurd (error-ne-ok e r h)
read_entity-ok marshal unmarshal (none, none) r h = absurd (error-ne-ok no_information r h)
read_entity-ok marshal unmarshal (some body, none) r h = (body, refl, h)

-- An operation that sends an entity returns a value exactly if the entity is encoded, its request
-- returns a body and no error, and the body is decoded; the value is the decoded one.
pub send_entity-ok_iff :
    {V R : Type 0} (marshal : V → EntityResult Bytes) (unmarshal : Bytes → EntityResult R)
    (request : Bytes → Option Bytes × Option Failure) (v : V) (r : R)
    → (send_entity marshal unmarshal request v ≡ ok r) ↔ (
        (b : Bytes) × (body : Bytes) × (marshal v ≡ ok b)
        × (request b ≡ (some body, none))
        × (unmarshal body ≡ ok r))
unfolding send_entity
send_entity-ok_iff marshal unmarshal request v r = (
  λ h. elim (EntityResult-cases (marshal v)) [
    | inl x ↦
        let q = read_entity-ok marshal unmarshal (request x.0) r (rw (x.1, send_entity) at h) in
        (x.0, q.0, x.1, q.1, q.2)
    | inr x ↦ absurd (error-ne-ok x.0 r (rw (x.1, send_entity) at h))
  ],
  λ x. rw (x.2, send_entity, x.3) x.4,
)
