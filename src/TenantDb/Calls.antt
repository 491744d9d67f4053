-- ===== src/TenantDb/Calls.antt =====
-- The calls of common/db/tenantdb/tenant_db.go for a connection, one at a time, and the check of the
-- connections in the cache. The cache has what a connection was opened with.
use soelib.Common.{ℕ, List, [], ◌∷◌, Option, none, some, Bool, true, false, ◌==◌, if◌then◌else◌}
use soelib.Common.Bytes.{codes}
use soelib.Common.Text.{String}
use soelib.TenantDb.Cache.{put}
use soelib.TenantDb.Sources.{Result, ok, error, panicked, ◌>>=◌}
use soelib.TenantDb.Opening.{OptSql, Database, Driver, get_db}

-- An argument of any type, as far as its type is asserted.
pub data Argument : Type 0 where
  text : String → Argument
  flag : Bool → Argument
  level : ℕ → Argument
  other : Argument

-- `logger.Error`
abbrev pub error_level : ℕ
error_level = 2

abbrev pub opt_of : String → Bool → ℕ → Result OptSql
opt_of name traced log_level =
    ok (record { log_level = log_level; enable_trace = traced; application_name = codes name })

-- An argument of another type is a panic, other numbers of arguments are ignored.
unfoldable pub parse_arguments : List Argument → Result OptSql
parse_arguments (text n ∷ []) = opt_of n false error_level
parse_arguments (text n ∷ flag f ∷ []) = opt_of n f error_level
parse_arguments (text n ∷ flag f ∷ level l ∷ []) = opt_of n f l
parse_arguments (_ ∷ []) = panicked
parse_arguments (_ ∷ _ ∷ []) = panicked
parse_arguments (_ ∷ _ ∷ _ ∷ []) = panicked
parse_arguments _ = opt_of "go-service" false error_level

abbrev pub DbMap : Type 0
DbMap = String → Option Database

abbrev pub stored : DbMap → String → Result Database → DbMap × Result Database
stored c tenant (ok db) = (put c tenant (some db), ok db)
stored c tenant (error e) = (c, error e)
stored c tenant panicked = (c, panicked)

abbrev pub from_cache : DbMap → String → Option Database → Result Database → DbMap × Result Database
from_cache c tenant (some db) opened = (c, ok db)
from_cache c tenant none opened = stored c tenant opened

-- The options, which are not nil, are those of the caller.
unfoldable pub get_db_from_map_with_opt : Driver → DbMap → String → OptSql → DbMap × Result Database
get_db_from_map_with_opt d c tenant opt =
    from_cache c tenant (c tenant) (get_db d (codes tenant) opt false)

unfoldable pub get_db_from_map : Driver → DbMap → String → List Argument → DbMap × Result Database
get_db_from_map d c tenant args =
    from_cache c tenant (c tenant)
      (parse_arguments args >>= λ opt. get_db d (codes tenant) opt false)

unfoldable pub get_db_from_map_v2 :
    Driver → DbMap → String → Bool → List Argument → DbMap × Result Database
get_db_from_map_v2 d c tenant enable args =
    from_cache c tenant (c tenant)
      (parse_arguments args >>= λ opt. get_db d (codes tenant) opt enable)

-- What a check of a connection meets: no pool behind it, a ping that is answered, one that fails, with
-- the idle connections that are left, and one that is not answered in time.
pub data Health : Type 0 where
  no_pool answered late : Health
  failing : ℕ → Health

abbrev pub is_removed : Health → Bool
is_removed answered = false
is_removed _ = true

-- `senMsgToWx` after a failing ping, if no connection is idle.
abbrev pub is_reported : Health → Bool
is_reported (failing idle) = idle == 0
is_reported _ = false

pub record Checked : Type 0 where
  pub map_left : DbMap
  pub reports : List String

abbrev pub check_one : Checked → String → Health → Checked
check_one s tenant h = record {
  map_left = if is_removed h then put s.map_left tenant none else s.map_left;
  reports = if is_reported h then tenant ∷ s.reports else s.reports;
}

-- `checkAllConnections`, over the tenants that `Range` comes to.
unfoldable pub check_all : (String → Health) → List String → Checked → Checked
check_all health [] s = s
check_all health (t ∷ ts) s = check_all health ts (check_one s t (health t))
