-- ===== src/Redis/Pool.antt =====
-- How common/db/specialdb/redis.go takes a connection, sends a command, and gives the connection back.
-- The library (redigo), with its pool and its decoders of answers, and the server are parameters.
use soelib.Common.{
  ℕ, ◌+◌, ◌-◌, List, [], ◌∷◌, ◌++◌, Option, none, some, Bool, false, true, ◌⊎◌, inl, inr,
  if◌then◌else◌,
}
use soelib.Common.Int.{ℤ}
use soelib.Common.Text.{String}
use soelib.Redis.Script.{Script}

-- A `context.Context`: nil, a `*gin.Context` that is nil or has a request or none, or another one with
-- its number, whose `Err()` is nil or not.
pub data Context : Type 0 where
  no_context gin_nil gin_no_request background : Context
  gin plain : ℕ → Bool → Context

pub data Arg : Type 0 where
  script : Script → Arg
  text : String → Arg
  bytes : List ℕ → Arg
  number : ℤ → Arg
  context : Context → Arg

-- What `Do` returns: a reply or nil, and an error or nil.
pub record Answer (R : Type 0) : Type 0 where
  pub reply : Option R
  pub err : Option String

-- The library and the server with the state `W`. `available n` says whether the pool gives a
-- connection when the caller has `n` of them; a decoder returns an error or a value.
pub record Library (W R : Type 0) : Type 0 where
  pub available : ℕ → Bool
  pub exhausted : String
  pub perform : String → List Arg → W → Answer R × W
  pub to_bytes : Answer R → String ⊎ List ℕ
  pub to_bool : Answer R → String ⊎ Bool
  pub to_int : Answer R → String ⊎ ℤ
  pub to_string : Answer R → String ⊎ String
  pub to_strings : Answer R → String ⊎ List String
  pub to_values : Answer R → String ⊎ List (Option (List ℕ))
  pub is_err_nil : String → Bool

-- `held` counts the connections that the caller has and has not closed.
pub record State (W : Type 0) : Type 0 where
  pub server : W
  pub held : ℕ

-- The results of the operations.
pub data Result {ℓ} (A : Type ℓ) : Type ℓ where
  ok : A → Result A
  error : String → Result A
  panicked : Result A

abbrev request_context : ℕ → Bool → Context
request_context n failed = if failed then background else plain n false

-- The context that is appended, or the panic of a request that is nil.
abbrev chosen : Context → Option Context
chosen no_context = some background
chosen gin_nil = some background
chosen gin_no_request = none
chosen background = some background
chosen (gin n failed) = some (request_context n failed)
chosen (plain n failed) = some (request_context n failed)

abbrev appended : List Arg → Option Context → Option (List Arg)
appended args none = none
appended args (some c) = some (args ++ context c ∷ [])

unfoldable pub build_args : Bool → Context → List Arg → Option (List Arg)
build_args trace c args = if trace then appended args (chosen c) else some args

module _ {W R : Type 0} (lib : Library W R) where
  -- `Pool.Get` and the deferred `safeClose`; without a connection there is one to close that is not of
  -- the pool and answers every command with an error.
  abbrev pub taken : Bool → State W → State W
  taken given s = if given then record s { held = s.held + 1 } else s

  abbrev pub safe_close : Bool → State W → State W
  safe_close given s = if given then record s { held = s.held - 1 } else s

  abbrev pub with_conn : {A : Type 0} → (Bool → State W → A × State W) → State W → A × State W
  with_conn body s =
      let given = lib.available s.held in
      let r = body given (taken given s) in (r.0, safe_close given r.1)

  abbrev pub no_answer : Answer R
  no_answer = record { reply = none; err = some lib.exhausted }

  -- `conn.Do`, where a panic of `buildArgs` is none.
  abbrev sent : Bool → String → Option (List Arg) → State W → Option (Answer R) × State W
  sent given command none s = (none, s)
  sent true command (some args) s =
      let r = lib.perform command args s.server in (some r.0, record s { server = r.1 })
  sent false command (some args) s = (some no_answer, s)

  unfoldable pub send :
      Bool → Context → Bool → String → List Arg → State W → Option (Answer R) × State W
  send trace c given command args s = sent given command (build_args trace c args) s

-- What is made of an answer.
abbrev pub read {ℓ} :
    {A : Type ℓ} {R : Type 0} → (Answer R → Result A) → Option (Answer R) → Result A
read f none = panicked
read f (some a) = f a

abbrev pub decoded {ℓ} : {A : Type ℓ} → String ⊎ A → Result A
decoded (inl e) = error e
decoded (inr a) = ok a

abbrev pub and_then :
    {A B W : Type 0} → (A → State W → Result B × State W) → Result A × State W → Result B × State W
and_then f (ok a, s) = f a s
and_then f (error e, s) = (error e, s)
and_then f (panicked, s) = (panicked, s)
