-- ===== src/Http/Remotes.antt =====
-- `NewRemote`, `Remote` and `RemoteWithContent` of net/soehttp/soehttp.go, and the headers of both
-- kinds of client. The MD5 digest of a URL, in hexadecimal, and strconv.Atoi are parameters.
use Prim.Native.String.{slice}
use soelib.Common.{ℕ, List, [], ◌∷◌, ◌++◌, Option, none, some, Bool, false, if◌then◌else◌}
use soelib.Common.Int.{ℤ}
use soelib.Common.Text.{String, ◌<>◌, is_empty}
use soelib.Http.Config.{TransportConfig, RetryConfig, HystrixConfig, default_retry_config}
use soelib.Http.Commands.{Globals}
use soelib.Http.Clients.{
  ClientConfig, create_client_with_config, create_default_client, timeout_or_default, or_default,
  command_of, pick_tracer,
}

-- A client that the caller brings, or one that is made.
pub data AnyClient (H : Type 0) : Type 0 where
  custom : H → AnyClient H
  made : ClientConfig → AnyClient H

module _ (C T H : Type 0) where
  pub record RemoteOption : Type 0 where
    pub url : String
    pub token : String
    pub tenant_id : String
    pub shop_code : String
    pub timeout_second : ℤ
    pub context : Option C
    pub custom_client : Option H
    pub transport_config : Option TransportConfig
    pub retry_config : Option RetryConfig
    pub enable_hystrix : Option Bool
    pub hystrix_config : Option HystrixConfig
    pub enable_tracing : Bool
    pub tracer : Option T

  pub record RemoteService : Type 0 where
    pub url : String
    pub token : String
    pub tenant_id : String
    pub shop_code : String
    pub context : C
    pub client : AnyClient H
    pub retry_config : RetryConfig
    pub enable_hystrix : Option Bool
    pub command_name : String
    pub enable_tracing : Bool
    pub tracer : Option T

-- The first 16 digits of the digest.
abbrev pub generate_command_name : (String → String) → String → String
generate_command_name hex_md5 url = "soehttp-" <> slice (hex_md5 url) 0 16

abbrev pub client_of : {H : Type 0} → Option H → ℕ → Option TransportConfig → AnyClient H
client_of (some h) timeout transport = custom h
client_of none timeout transport = made (create_client_with_config timeout transport)

-- The timeout of a fourth argument that is a positive number, else 15 seconds.
abbrev pub parsed_timeout : (String → Option ℤ) → String → ℕ
parsed_timeout atoi t =
    if is_empty t then 15 else elim (atoi t) [ none ↦ 15 | some n ↦ timeout_or_default n ]

module _ {C T H : Type 0} where
  unfoldable pub new_remote :
      C
      → (String → T)
      → (String → String)
      → RemoteOption C T H
      → Globals
      → RemoteService C T H × Globals
  new_remote background otel_tracer hex_md5 opt g =
      let name = generate_command_name hex_md5 opt.url in
      let command =
        command_of background otel_tracer opt.enable_hystrix name opt.hystrix_config g in
      (
        record {
          url = opt.url;
          token = opt.token;
          tenant_id = opt.tenant_id;
          shop_code = opt.shop_code;
          context = or_default opt.context background;
          client =
              client_of opt.custom_client (timeout_or_default opt.timeout_second)
                opt.transport_config;
          retry_config = or_default opt.retry_config default_retry_config;
          enable_hystrix = opt.enable_hystrix;
          command_name = command.0;
          enable_tracing = opt.enable_tracing;
          tracer = pick_tracer background otel_tracer opt.enable_tracing opt.tracer "soehttp";
        },
        command.1,
      )

  abbrev pub plain_remote : C → String → String → String → String → ℕ → RemoteService C T H
  plain_remote ctx url token tenant shop timeout = record {
    url = url;
    token = token;
    tenant_id = tenant;
    shop_code = shop;
    context = ctx;
    client = made (create_default_client timeout);
    retry_config = default_retry_config;
    enable_hystrix = none;
    command_name = "";
    enable_tracing = false;
    tracer = none;
  }

  -- The meaning of one to four arguments; another number of them is ignored.
  unfoldable pub remote_with_content :
      (String → Option ℤ) → C → String → List String → RemoteService C T H
  remote_with_content atoi ctx url (token ∷ []) = plain_remote ctx url token "" "" 15
  remote_with_content atoi ctx url (token ∷ tenant ∷ []) = plain_remote ctx url token tenant "" 15
  remote_with_content atoi ctx url (token ∷ tenant ∷ shop ∷ []) =
      plain_remote ctx url token tenant shop 15
  remote_with_content atoi ctx url (token ∷ tenant ∷ shop ∷ t ∷ []) =
      plain_remote ctx url token tenant shop (parsed_timeout atoi t)
  remote_with_content atoi ctx url _ = plain_remote ctx url "" "" "" 15

  abbrev pub with_client : RemoteService C T H → H → RemoteService C T H
  with_client s h = record s { client = custom h }

-- The calls of `Header.Set`, in their order.
abbrev header : String → String → List (String × String)
header name value = if is_empty value then [] else (name, value) ∷ []

unfoldable pub set_headers : {C T H : Type 0} → RemoteService C T H → List (String × String)
set_headers s =
    ("Content-Type", "application/json; charset=utf-8") ∷ header "Authorization" s.token
    ++ header "tenantId" s.tenant_id
    ++ header "shopCode" s.shop_code

pub record RequestOptions : Type 0 where
  pub tenant_id : String
  pub shop_code : String
  pub token : String

unfoldable pub set_headers_with_options : RequestOptions → List (String × String)
set_headers_with_options opts =
    ("Content-Type", "application/json; charset=utf-8") ∷ header "Authorization" opts.token
    ++ header "tenantId" opts.tenant_id
    ++ header "shopCode" opts.shop_code
