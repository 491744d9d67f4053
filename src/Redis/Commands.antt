-- ===== src/Redis/Commands.antt =====
-- The operations of `RedisTemplate` in common/db/specialdb/redis.go, and `ConnRedis`.
use soelib.Common.{
  ℕ, zero, suc, List, [], ◌∷◌, ◌++◌, map, Option, none, some, Bool, false, true, ◌⊎◌, inl, inr,
  if◌then◌else◌, length,
}
use soelib.Common.Int.{ℤ, pos, negsuc}
use soelib.Common.Text.{String, ◌<>◌}
use soelib.Des.Ecb as Ecb
use soelib.Des.Ecb.{Cipher, des_key, decrypt_desecb}
use soelib.Redis.Script.{Script, if_equal, get_key, argument, return_del, return_zero}
use soelib.Redis.Pool.{
  script, Context, Arg, text, bytes, number, Answer, Library, State, Result, ok, error, panicked,
  with_conn, send, read, decoded, and_then,
}

pub record RedisConfig : Type 0 where
  pub host : String
  pub password : List ℕ
  pub max_idle : ℤ
  pub max_active : ℤ
  pub idle_timeout : ℤ
  pub db : ℤ
  pub enable_trace : Bool

-- The text that `DecryptDESECB` returns, "" after an error.
abbrev with_decrypted : RedisConfig → Ecb.Result → Result RedisConfig
with_decrypted c (Ecb.returned p) = ok (record c { password = p })
with_decrypted c Ecb.failed = ok (record c { password = [] })
with_decrypted c Ecb.panicked = panicked

abbrev with_secret :
    (List ℕ → Option Cipher)
    → (List ℕ → List ℕ)
    → (List ℕ → Option (List ℕ))
    → RedisConfig
    → List ℕ
    → Result RedisConfig
with_secret new_cipher encode decode c [] = ok c
with_secret new_cipher encode decode c (p ∷ ps) =
    with_decrypted c (decrypt_desecb new_cipher encode decode (p ∷ ps) des_key)

-- What the pool dials with.
unfoldable pub conn_redis :
    (List ℕ → Option Cipher)
    → (List ℕ → List ℕ)
    → (List ℕ → Option (List ℕ))
    → RedisConfig
    → Result RedisConfig
conn_redis new_cipher encode decode c = with_secret new_cipher encode decode c c.password

-- The expiry of a value; -1 is none.
abbrev expiry : ℤ → List Arg
expiry (negsuc zero) = []
expiry (negsuc (suc n)) = text "EX" ∷ number (negsuc (suc n)) ∷ []
expiry (pos n) = text "EX" ∷ number (pos n) ∷ []

-- The text of `luaScript` is `script_text` of it.
abbrev pub unlock_script : Script
unlock_script = if_equal get_key argument return_del return_zero

abbrev pub not_owner : String
not_owner = "非法用户，无法释放该锁"

-- `redisHGETALLToMap`, which panics at an odd number of values.
unfoldable pub redis_hgetall_to_map : List (Option (List ℕ)) → Result (List (List ℕ))
redis_hgetall_to_map [] = ok []
redis_hgetall_to_map (k ∷ []) = panicked
redis_hgetall_to_map (k ∷ none ∷ vs) = error "unexpected type for value"
redis_hgetall_to_map (k ∷ some v ∷ vs) = elim (redis_hgetall_to_map vs) [
  | ok rest ↦ ok (v ∷ rest)
  | error e ↦ error e
  | panicked ↦ panicked
]

-- The error of it is dropped, with its nil for the values.
abbrev without_error : Result (List (List ℕ)) → Result (List (List ℕ))
without_error (ok vs) = ok vs
without_error (error e) = ok []
without_error panicked = panicked

abbrev no_error : {R : Type 0} → Answer R → Result (Unit {0})
no_error a = elim a.err [ none ↦ ok tt | some e ↦ error e ]

-- `Exists` is false after an error.
abbrev or_false : String ⊎ Bool → Result Bool
or_false (inl e) = ok false
or_false (inr b) = ok b

-- What `Unlock` makes of the number of the keys that the script has deleted, 0 if there is no number.
abbrev pub deleted : String ⊎ ℤ → Result (Unit {0})
deleted (inl e) = error not_owner
deleted (inr (pos zero)) = error not_owner
deleted (inr (pos (suc n))) = ok tt
deleted (inr (negsuc n)) = ok tt

module _ {W R : Type 0} (lib : Library W R) (trace : Bool) where
  -- One command over one connection.
  abbrev pub one :
      {A : Type 0}
      → String
      → List Arg
      → (Answer R → Result A)
      → Context
      → State W
      → Result A × State W
  one command args f c =
      with_conn lib (λ given s. let r = send lib trace c given command args s in (read f r.0, r.1))

  abbrev pub lock_answer : String ⊎ String → Result Bool
  lock_answer (inl e) = if lib.is_err_nil e then ok false else error e
  lock_answer (inr t) = ok true

  unfoldable pub get_and_renew : String → ℤ → Context → State W → Result (List ℕ) × State W
  get_and_renew key ex_time c = with_conn lib (λ given s.
      let r = send lib trace c given "GET" (text key ∷ []) s in
      and_then
        (λ reply t.
          let e = send lib trace c given "EXPIRE" (text key ∷ number ex_time ∷ []) t in
          (read (λ a. ok reply) e.0, e.1))
        (read (λ a. decoded (lib.to_bytes a)) r.0, r.1))

  unfoldable pub renew : String → ℤ → Context → State W → Result (Unit {0}) × State W
  renew key ex_time = one "EXPIRE" (text key ∷ number ex_time ∷ []) no_error

  unfoldable pub set_string : String → String → ℤ → Context → State W → Result (Unit {0}) × State W
  set_string key value times = one "SET" (text key ∷ text value ∷ expiry times) no_error

  -- `Set`, given what `json.Marshal` returns.
  unfoldable pub set :
      String → String ⊎ List ℕ → ℤ → Context → State W → Result (Unit {0}) × State W
  set key (inl e) time c = with_conn lib (λ given s. (error e, s))
  set key (inr value) time c = one "SET" (text key ∷ bytes value ∷ expiry time) no_error c

  unfoldable pub exists : String → Context → State W → Result Bool × State W
  exists key = one "EXISTS" (text key ∷ []) (λ a. or_false (lib.to_bool a))

  unfoldable pub get : String → Context → State W → Result (List ℕ) × State W
  get key = one "GET" (text key ∷ []) (λ a. decoded (lib.to_bytes a))

  unfoldable pub delete : String → Context → State W → Result Bool × State W
  delete key = one "DEL" (text key ∷ []) (λ a. decoded (lib.to_bool a))

  -- The loop of `LikeDeletes`.
  unfoldable pub delete_all : Context → List String → State W → Result (Unit {0}) × State W
  delete_all c [] s = (ok tt, s)
  delete_all c (key ∷ keys) s = and_then (λ b. delete_all c keys) (delete key c s)

  unfoldable pub like_deletes : String → Context → State W → Result (Unit {0}) × State W
  like_deletes key c = with_conn lib (λ given s.
      let r = send lib trace c given "KEYS" (text ("*" <> (key <> "*")) ∷ []) s in
      and_then (delete_all c) (read (λ a. decoded (lib.to_strings a)) r.0, r.1))

  unfoldable pub lock : String → String → ℤ → Context → State W → Result Bool × State W
  lock name value expire =
      one "SET" (text name ∷ text value ∷ text "EX" ∷ number expire ∷ text "NX" ∷ [])
        (λ a. lock_answer (lib.to_string a))

  -- `EvalLuaScript`, with what its caller makes of the answer.
  unfoldable pub eval_lua_script :
      {A : Type 0}
      → Script
      → List String
      → List Arg
      → (Answer R → Result A)
      → Context
      → State W
      → Result A × State W
  eval_lua_script lua keys args =
      one "EVAL" (script lua ∷ number (pos (length keys)) ∷ (map text keys ++ args))

  unfoldable pub unlock : String → String → Context → State W → Result (Unit {0}) × State W
  unlock key value =
      eval_lua_script unlock_script (key ∷ []) (text value ∷ [])
        (λ a. deleted (lib.to_int (record { reply = a.reply; err = none })))

  unfoldable pub incr : String → Context → State W → Result ℤ × State W
  incr key = one "INCR" (text key ∷ []) (λ a. decoded (lib.to_int a))

  unfoldable pub has_get_all : String → Context → State W → Result (List (List ℕ)) × State W
  has_get_all has_key = one "HGETALL" (text has_key ∷ []) (λ a. elim (lib.to_values a) [
    | inl e ↦ error e
    | inr vs ↦ without_error (redis_hgetall_to_map vs)
  ])
