-- ===== src/Http/Samples.antt =====
-- Runs of net/soehttp on a client that loses the first request, is busy at the second and answers
-- the third.
use soelib.Common.{
  ℕ, zero, suc, ◌*◌, ◌<◌, [], ◌∷◌, Option, none, some, true, false, ◌≡◌, ◌≢◌, ◌⊎◌, refl, inl, inr,
  Option-cases, arith, ◌≤◌,
}
use soelib.Common.Int.{pos}
use soelib.Http.Config.{RetryConfig, default_retry_config, default_hystrix_config, one_second}
use soelib.Http.Wire.{
  Bytes, HttpClient, Attempts, RequestResult, Decoders, new_error, broken, responded, content,
  slept, called, json_object,
}
use soelib.Http.Remote.{do_request, calculate_retry_wait, is_retryable_status}
use soelib.Http.Retries.{calls, do_request-returns}
use soelib.Http.Replies.{is_retried, reply_at, answer, unread_at, history, do_request-answer}
use soelib.Http.Copies.{observed, observed_unwrapped, do_request_same}
use soelib.Http.Service
use soelib.Http.Commands.{Globals, configured, has, configure_hystrix_command}
use soelib.Http.Clients.{ServiceClientOption, new_service_client}
use soelib.Http.Breakers.{settings, initial, new_service_client-settings}
use soelib.Http.Calls.{HystrixDo}
use soelib.Http.Outcomes.{IsSynchronous}

abbrev decoders : Decoders ℕ
decoders = record {
  status_text = λ n. "Service Unavailable";
  unmarshal = λ b. some (json_object 0);
  decode_exception = λ o.
      some (record { error = ""; exception = ""; message = "no stock"; path = ""; data_text = "" });
  decode_vo = λ o. none;
}

abbrev twice : Option RetryConfig
twice = some (record default_retry_config { max_retries = pos 2 })

abbrev flaky : HttpClient
flaky zero b = (broken (new_error "connection reset"), [])
flaky (suc zero) b = (responded 503 (content (1 ∷ [])), [])
flaky (suc (suc n)) b = (responded 200 (content (7 ∷ 8 ∷ [])), [])

abbrev order : Bytes
order = 5 ∷ 6 ∷ []

retried : (b : ℕ) → b < 2 → is_retried twice (reply_at flaky order b) ≡ true
unfolding is_retried unread_at is_retryable_status
retried zero h = refl
retried (suc zero) h = refl
retried (suc (suc b)) h = absurd (omega arith)

third : RequestResult
third = record { body = some (7 ∷ 8 ∷ []); status = 200; retry_count = pos 2; err = none }

do_request-answer_example :
    (t : Attempts) × (do_request decoders twice flaky 3 order ≡ some (third, t))
    × (t.events
        ≡ called [] ∷ slept (2 * one_second) ∷ called [] ∷ slept one_second ∷ called order ∷ [])
unfolding third answer unread_at history calculate_retry_wait is_retried
do_request-answer_example = do_request-answer decoders twice flaky order 2 retried refl refl

do_request-returns_example :
    (p : RequestResult × Attempts) × (do_request decoders twice flaky 4 order ≡ some p)
    × (calls p.1.events ≤ 3)
do_request-returns_example = do_request-returns decoders twice flaky order

do_request_same_example :
    observed (Service.do_request decoders twice flaky 4 order)
    ≡ observed_unwrapped (do_request decoders twice flaky 4 order)
do_request_same_example = do_request_same decoders twice flaky 4 order

reads_all : (a : ℕ) (b : Bytes) → (flaky a b).1 ≡ []
reads_all zero b = refl
reads_all (suc zero) b = refl
reads_all (suc (suc n)) b = refl

abbrev patient : RetryConfig
patient = record default_retry_config { max_retries = pos 40 }

abbrev globals : Globals
globals = record {
  alarm = record { send_error_to_wx = true; chat_id = "group"; api_path = "/send" };
  enable_hystrix = true;
  configured_cmds = [];
  commands = [];
}

-- Contexts and tracers are numbers here.
abbrev stock_option : ServiceClientOption ℕ ℕ
stock_option = record {
  service_name = "stock";
  base_url = "http://stock";
  timeout_second = pos 0;
  context = none;
  transport_config = none;
  retry_config = none;
  enable_hystrix = some true;
  hystrix_config = none;
  enable_tracing = false;
  tracer = none;
  tracer_name = "";
}

new_service_client-settings_example :
    (settings "service-stock" (configured "service-stock" default_hystrix_config ∷ []) ≢ none)
    × ((has "service-stock" [] ≡ true)
        ⊎ (settings "service-stock" (configured "service-stock" default_hystrix_config ∷ [])
            ≡ some default_hystrix_config))
unfolding new_service_client configure_hystrix_command
new_service_client-settings_example =
    new_service_client-settings 0 (λ name. 1) stock_option (initial globals refl) refl

-- A breaker that lets every run through, and its fallback.
abbrev closed_breaker : HystrixDo
closed_breaker name run fallback s = elim ((run s).1) [
  | none ↦ ((run s).0, none)
  | some e ↦ fallback e (run s).0
]

closed_breaker-IsSynchronous : IsSynchronous closed_breaker
unfolding IsSynchronous
closed_breaker-IsSynchronous name run fallback s = elim (Option-cases ((run s).1)) [
  | inl e ↦ inl (rw (e, closed_breaker) refl, e)
  | inr x ↦ inr (
    x.0,
    (run s).0,
    inr refl,
    rw (x.1, closed_breaker) refl,
    rw (x.1, closed_breaker) ((λ e. e), (λ e. e)),
  )
]
