-- ===== src/TenantDb/Sources.antt =====
-- The data sources of tenants: common/db/tenantdb/data_source.go and data_source_back.go. What the
-- database answers to a query is a parameter.
use soelib.Common.{ℕ, List, [], ◌∷◌, Option, none, some, if◌then◌else◌}
use soelib.Common.Int.{ℤ}
use soelib.Common.Bytes.{trim_space, parse_int}
use soelib.Common.Text.{String}

-- The fields that a connection is opened from; texts that are taken apart are bytes, and the duration
-- is a word of 64 bits.
pub record TenantDataSource : Type 0 where
  pub url : List ℕ
  pub user_name : List ℕ
  pub password : List ℕ
  pub driver_classname : String
  pub pool_size : ℤ
  pub max_pool_size : ℤ
  pub exp_minute : ℕ

pub record TenantDataSourceBack : Type 0 where
  pub source : TenantDataSource
  pub enable : ℤ

pub data Failure : Type 0 where
  invalid_tenant not_configured many_sources : Failure
  no_db_name no_server no_password : Failure
  open_failed trace_failed pool_failed : String → Failure

pub data Result {ℓ} (A : Type ℓ) : Type ℓ where
  ok : A → Result A
  error : Failure → Result A
  panicked : Result A

infixl 5 ◌>>=◌
abbrev pub ◌>>=◌ {ℓ κ} : {A : Type ℓ} {B : Type κ} → Result A → (A → Result B) → Result B
ok a >>= f = f a
error e >>= f = error e
panicked >>= f = panicked

-- The two queries with a limit of one row: by the code of a shop, or by the tenant or the code.
pub data Query : Type 0 where
  by_shop_code by_tenant_or_code : List ℕ → Query

abbrev pub only_source : List TenantDataSource → Result TenantDataSource
only_source [] = error not_configured
only_source (s ∷ []) = ok s
only_source (s ∷ t ∷ rest) = error many_sources

abbrev pub query_of : List ℕ → Query
query_of tenant = if (parse_int tenant).1 then by_tenant_or_code tenant else by_shop_code tenant

-- `TDSRepository.GetByTenantID`: the characters of the tenant's text are trimmed.
abbrev pub find_trimmed : (Query → List TenantDataSource) → List ℕ → Result TenantDataSource
find_trimmed find [] = error invalid_tenant
find_trimmed find (c ∷ cs) = only_source (find (query_of (c ∷ cs)))

unfoldable pub get_by_tenant_id : (Query → List TenantDataSource) → List ℕ → Result TenantDataSource
get_by_tenant_id find tenant = find_trimmed find (trim_space tenant)

-- `TDSBRepository.GetByTenantID`: no row is no error.
abbrev pub only_back : List TenantDataSourceBack → Result (Option TenantDataSourceBack)
only_back [] = ok none
only_back (s ∷ []) = ok (some s)
only_back (s ∷ t ∷ rest) = error many_sources

unfoldable pub get_back_by_tenant_id :
    (List ℕ → List TenantDataSourceBack) → List ℕ → Result (Option TenantDataSourceBack)
get_back_by_tenant_id find tenant = only_back (find tenant)
