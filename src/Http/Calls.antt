-- ===== src/Http/Calls.antt =====
-- The calls of net/soehttp: `do` and `doWithOptions`, with or without a circuit breaker, and the
-- operations on entities. hystrix.Do, json.Marshal and json.Unmarshal are parameters; http.NewRequest
-- takes the methods and the URLs of this code, and the spans of tracing have no effect on a result.
use soelib.Common.{ℕ, List, ◌∷◌, Option, none, some, Bool, not, ◌&&◌, if◌then◌else◌}
use soelib.Common.Int.{ℤ, pos}
use soelib.Common.Text.{String, ◌<>◌, is_empty}
use soelib.Http.Config.{AlarmConfig}
use soelib.Http.Commands.{Globals, should_use_hystrix}
use soelib.Http.Wire.{Bytes, Failure, RequestResult, new_error}

-- The named results and locals of a call, and the alerts that it has sent.
pub record Session : Type 0 where
  pub result : Option Bytes
  pub status_code : ℕ
  pub retry_count : ℤ
  pub alerts : List String

abbrev pub opened : List String → Session
opened alerts = record { result = none; status_code = 0; retry_count = pos 0; alerts = alerts }

-- A part of the program that can fail, on a session.
abbrev pub Action : Type 0
Action = Session → Session × Option Failure

-- `hystrix.Do`: the breaker's name, the run, and the fallback for an error.
abbrev pub HystrixDo : Type 0
HystrixDo = String → Action → (Failure → Action) → Action

abbrev pub send_fallback_alert : AlarmConfig → String → Session → Session
send_fallback_alert alarm content s =
    if alarm.send_error_to_wx && not (is_empty alarm.chat_id) && not (is_empty alarm.api_path)
    then record s { alerts = content ∷ s.alerts }
    else s

-- The assignment of what `doRequest` returns.
abbrev pub request_action : RequestResult → Action
request_action o s =
    (record s { result = o.body; status_code = o.status; retry_count = o.retry_count }, o.err)

abbrev pub fallback_action : AlarmConfig → String → Failure → Action
fallback_action alarm content e s =
    (send_fallback_alert alarm content s, some (new_error "fallback"))

-- The breaker of the client, or that of the kind of request.
abbrev pub breaker_name : String → String → String
breaker_name command_name operation = if is_empty command_name then operation else command_name

-- The part that `do` of a remote service and `doWithOptions` of a service client share; the alert is
-- the text of each.
unfoldable pub do_with :
    HystrixDo → Globals → Option Bool → String → String → String → RequestResult → Action
do_with hystrix_do g enable_hystrix command_name alert operation o s =
    if should_use_hystrix enable_hystrix g
    then hystrix_do (breaker_name command_name operation) (request_action o)
        (fallback_action g.alarm alert) s
    else request_action o s

abbrev pub remote_alert : String → String → String
remote_alert url tenant_id = "请求熔断错误！URL:" <> url <> " TenantID:" <> tenant_id

abbrev pub service_alert : String → String → String
service_alert service_name url = "ServiceClient 熔断错误！Service:" <> service_name <> " URL:" <> url

-- The value or the error of an operation on entities.
pub data EntityResult (A : Type 0) : Type 0 where
  ok : A → EntityResult A
  error : Failure → EntityResult A

abbrev pub no_information : Failure
no_information = new_error "未查询到任何信息"

module _ {V R : Type 0} (marshal : V → EntityResult Bytes)
    (unmarshal : Bytes → EntityResult R) where
  -- What all operations on entities do with the body and the error of their request.
  abbrev pub read_entity : Option Bytes × Option Failure → EntityResult R
  read_entity (body, some e) = error e
  read_entity (none, none) = error no_information
  read_entity (some body, none) = unmarshal body

  -- `PostEntity` and `PutEntity`, by the request that they make of the encoded value.
  unfoldable pub send_entity : (Bytes → Option Bytes × Option Failure) → V → EntityResult R
  send_entity request v = elim (marshal v) [ error e ↦ error e | ok b ↦ read_entity (request b) ]

  -- `GetEntity` and `DeleteEntity`, which send no body.
  unfoldable pub fetch_entity : Option Bytes × Option Failure → EntityResult R
  fetch_entity answer = read_entity answer
