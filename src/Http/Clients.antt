-- ===== src/Http/Clients.antt =====
-- The makers of clients of net/soehttp: `NewServiceClient`, `NewRemote`, `RemoteWithContent` and
-- `createClientWithConfig`, and the global pool of service clients. Contexts, tracers and http.Client
-- values that a caller brings are of types of their own; the digest of a URL is a parameter.
use soelib.Common.{
  ℕ, zero, suc, List, [], ◌∷◌, Option, none, some, Bool, true, false, if◌then◌else◌,
}
use soelib.Common.Int.{ℤ, pos, negsuc}
use soelib.Common.Text.{String, ◌<>◌, text_eq, is_empty}
use soelib.Http.Config.{
  TransportConfig, RetryConfig, HystrixConfig, default_transport_config, default_retry_config,
  default_hystrix_config, mul64, one_second,
}
use soelib.Http.Commands.{Globals, configure_hystrix_command}

-- An http.Client: its timeout, in nanoseconds, and its transport.
pub record ClientConfig : Type 0 where
  pub timeout : ℕ
  pub transport : TransportConfig

unfoldable pub create_client_with_config : ℕ → Option TransportConfig → ClientConfig
create_client_with_config timeout_seconds none = record {
  timeout = mul64 timeout_seconds one_second;
  transport = record default_transport_config {
    insecure_skip_verify = true;
    max_idle_conns_per_host = 1000;
  };
}
create_client_with_config timeout_seconds (some config) = record {
  timeout = mul64 timeout_seconds one_second;
  transport = config;
}

abbrev pub create_default_client : ℕ → ClientConfig
create_default_client timeout_seconds = create_client_with_config timeout_seconds none

-- 15 seconds, if the option is not positive.
abbrev pub timeout_or_default : ℤ → ℕ
timeout_or_default (pos zero) = 15
timeout_or_default (pos (suc n)) = suc n
timeout_or_default (negsuc n) = 15

module _ (C T : Type 0) where
  pub record ServiceClientOption : Type 0 where
    pub service_name : String
    pub base_url : String
    pub timeout_second : ℤ
    pub context : Option C
    pub transport_config : Option TransportConfig
    pub retry_config : Option RetryConfig
    pub enable_hystrix : Option Bool
    pub hystrix_config : Option HystrixConfig
    pub enable_tracing : Bool
    pub tracer : Option T
    pub tracer_name : String

  pub record ServiceClient : Type 0 where
    pub service_name : String
    pub base_url : String
    pub context : C
    pub client : ClientConfig
    pub retry_config : RetryConfig
    pub enable_hystrix : Option Bool
    pub command_name : String
    pub enable_tracing : Bool
    pub tracer : Option T

abbrev pub or_default {ℓ} : {A : Type ℓ} → Option A → A → A
or_default none d = d
or_default (some a) d = a

-- `background` is `context.Background()`, `otel_tracer` is `otel.Tracer`.
module _ {C T : Type 0} (background : C) (otel_tracer : String → T) where
  abbrev pub pick_tracer : Bool → Option T → String → Option T
  pick_tracer false t name = none
  pick_tracer true (some t) name = some t
  pick_tracer true none name = some (otel_tracer (if is_empty name then "soehttp" else name))

  -- The name of the breaker, and the configuration of it when the option enables one.
  abbrev pub command_of : Option Bool → String → Option HystrixConfig → Globals → String × Globals
  command_of (some true) name config g =
      (name, configure_hystrix_command name (or_default config default_hystrix_config) g)
  command_of (some false) name config g = ("", g)
  command_of none name config g = ("", g)

  abbrev pub named : String → String
  named name = if is_empty name then "unknown-service" else name

  unfoldable pub new_service_client :
      ServiceClientOption C T → Globals → ServiceClient C T × Globals
  new_service_client opt g =
      let name = named opt.service_name in
      let command = command_of opt.enable_hystrix ("service-" <> name) opt.hystrix_config g in
      (
        record {
          service_name = name;
          base_url = opt.base_url;
          context = or_default opt.context background;
          client =
              create_client_with_config (timeout_or_default opt.timeout_second)
                opt.transport_config;
          retry_config = or_default opt.retry_config default_retry_config;
          enable_hystrix = opt.enable_hystrix;
          command_name = command.0;
          enable_tracing = opt.enable_tracing;
          tracer = pick_tracer opt.enable_tracing opt.tracer opt.tracer_name;
        },
        command.1,
      )

  -- `RegisterService`: the client made under the name takes the place of an earlier one.
  unfoldable pub register_service :
      String
      → ServiceClientOption C T
      → List (String × ServiceClient C T) × Globals
      → List (String × ServiceClient C T) × Globals
  unfolding new_service_client
  register_service name opt s =
      let made = new_service_client (record opt { service_name = name }) s.1 in
      ((name, made.0) ∷ s.0, made.1)

-- The entry of a map's key; `none` stands for the error that the service is not registered.
unfoldable pub get_service_client {ℓ} : {A : Type ℓ} → String → List (String × A) → Option A
get_service_client name [] = none
get_service_client name ((k, a) ∷ rest) =
    let later = get_service_client name rest in if text_eq.beq name k then some a else later
