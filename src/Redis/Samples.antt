-- ===== src/Redis/Samples.antt =====
-- A server that keeps one text for each key, and a pool that gives `most` connections at most.
use soelib.Common.{
  ℕ, List, [], ◌∷◌, ◌++◌, Option, none, some, Bool, true, false, ltb, ◌⊎◌, inl, inr, ◌≡◌, ◌≢◌, refl,
  sym, ap, if◌then◌else◌,
}
use mathlib.Core.Option.{some-injective}
use soelib.Common.Int.{ℤ, pos}
use soelib.Common.Bytes.{codes}
use soelib.Common.Text.{String, text_eq}
use soelib.Redis.Script.{script_text, run_script, set_at}
use soelib.Redis.Pool.{
  script, plain, gin, gin_no_request, background, Arg, text, context, Answer, Library, State, ok,
  error, panicked, build_args, send,
}
use soelib.Redis.Commands.{
  unlock_script, lock, unlock, eval_lua_script, not_owner, like_deletes, redis_hgetall_to_map,
}
use soelib.Redis.Locking.{lock_args, unlock_args, IsServer}
use soelib.Redis.Exclusion.{locked, lock_call, unlock_call, run_calls, lock-table, lock-excludes}
use soelib.Redis.LikeDeletes.{like_deletes-starved}

abbrev Table : Type 0
Table = String → Option String

data Reply : Type 0 where
  done : Reply
  amount : ℤ → Reply
  names : List String → Reply

abbrev replied : Reply → Table → Answer Reply × Table
replied r w = (record { reply = some r; err = none }, w)

abbrev set_if_free : String → String → Table → Option String → Answer Reply × Table
set_if_free k v w none = replied done (set_at w k (some v))
set_if_free k v w (some u) = (record { reply = none; err = none }, w)

abbrev take_out : String → Table → Bool → Answer Reply × Table
take_out k w true = replied (amount (pos 1)) (set_at w k none)
take_out k w false = replied (amount (pos 0)) w

abbrev do_set : List Arg → Table → Answer Reply × Table
do_set (text k ∷ text v ∷ rest) w = set_if_free k v w (w k)
do_set _ w = (record { reply = none; err = some "ERR" }, w)

abbrev ran_script : ℕ × Table → Answer Reply × Table
ran_script r = replied (amount (pos r.0)) r.1

abbrev do_eval : List Arg → Table → Answer Reply × Table
do_eval (script p ∷ n ∷ text k ∷ text v ∷ rest) w = ran_script (run_script p w k v)
do_eval _ w = (record { reply = none; err = some "ERR" }, w)

abbrev do_del : List Arg → Table → Answer Reply × Table
do_del (text k ∷ rest) w = take_out k w true
do_del _ w = (record { reply = none; err = some "ERR" }, w)

abbrev perform : String → List Arg → Table → Answer Reply × Table
perform command args w =
    if text_eq.beq command "SET"
    then do_set args w
    else (if text_eq.beq command "EVAL"
        then do_eval args w
        else (if text_eq.beq command "DEL"
            then do_del args w
            else replied (names ("a" ∷ "b" ∷ [])) w))

abbrev to_int : Option Reply → String ⊎ ℤ
to_int (some (amount n)) = inr n
to_int (some done) = inl "type"
to_int (some (names ns)) = inl "type"
to_int none = inl "nil"

abbrev to_string : Option Reply → String ⊎ String
to_string (some (amount n)) = inl "type"
to_string (some done) = inr "OK"
to_string (some (names ns)) = inl "type"
to_string none = inl "nil"

abbrev to_strings : Option Reply → String ⊎ List String
to_strings (some (amount n)) = inl "type"
to_strings (some done) = inl "type"
to_strings (some (names ns)) = inr ns
to_strings none = inl "nil"

abbrev to_bool : Option Reply → String ⊎ Bool
to_bool (some (amount n)) = inr true
to_bool (some done) = inl "type"
to_bool (some (names ns)) = inl "type"
to_bool none = inl "nil"

abbrev or_err : {A : Type 0} → (Option Reply → String ⊎ A) → Answer Reply → String ⊎ A
or_err f a = elim a.err [ none ↦ f a.reply | some e ↦ inl e ]

abbrev sample : ℕ → Library Table Reply
sample most = record {
  available = λ n. ltb n most;
  exhausted = "exhausted";
  perform = perform;
  to_bytes = λ a. inl "type";
  to_bool = or_err to_bool;
  to_int = or_err to_int;
  to_string = or_err to_string;
  to_strings = or_err to_strings;
  to_values = λ a. inl "type";
  is_err_nil = λ e. text_eq.beq e "nil";
}

abbrev start : State Table
start = record { server = λ k. none; held = 0 }

sample-IsServer : IsServer (sample 1) false (λ w. w)
unfolding build_args
sample-IsServer = record {
  unsent = refl;
  set_free = λ w k v n h c built b. rw (sym (some-injective _ _ b)) rw h (refl, λ j. refl);
  set_taken = λ w k v u n h c built b.
      rw (sym (some-injective _ _ b)) rw h (("nil", refl, refl), λ j. refl);
  eval = λ w k v p c built b. rw (sym (some-injective _ _ b)) (refl, λ j. refl);
}

lock_built : build_args false background (lock_args "k" "v" 9) ≡ some (lock_args "k" "v" 9)
unfolding build_args
lock_built = refl

unlock_built : build_args false background (unlock_args "k" "v") ≡ some (unlock_args "k" "v")
unfolding build_args
unlock_built = refl

ends : (args : List Arg) → args ++ [] ≡ args
ends [] = refl
ends (a ∷ args) = ap (λ (l : List Arg). a ∷ l) (ends args)

untraced : (args : List Arg) → build_args false background args ≡ some (args ++ [])
unfolding build_args
untraced args = ap some (sym (ends args))

first_lock : (lock (sample 1) false "k" "v" (pos 10) background start).0 ≡ ok true
unfolding lock send build_args
first_lock = refl

v_is_not_w : ◌≢◌ {A = String} "v" "w"
v_is_not_w e = let x : false ≡ true = (text_eq.beq_iff "v" "w").1 e in absurd (cc x)

abbrev locked_once : State Table
locked_once = record { server = set_at (λ k. none) "k" (some "v"); held = 0 }

-- The text of the script of `Unlock`.
unlock_script_run :
    script_text unlock_script
    ≡ "\n\t\tif redis.call(\"get\", KEYS[1]) == ARGV[1] then\n\t\t\treturn redis.call(\"del\", KEYS[1])\n\t\telse\n\t\t\treturn 0\n\t\tend\n\t"
unlock_script_run = refl

-- A taken key: another's `Lock` gets false, and another's `Unlock` an error.
locked_run :
    ((lock (sample 1) false "k" "v" (pos 9) background start).0 ≡ ok true)
    × ((lock (sample 1) false "k" "w" (pos 9) background locked_once).0 ≡ ok false)
    × ((unlock (sample 1) false "k" "w" background locked_once).0 ≡ error not_owner)
    × ((unlock (sample 1) false "k" "v" background locked_once).0 ≡ ok tt)
    × ((lock (sample 0) false "k" "v" (pos 9) background start).0 ≡ error "exhausted")
unfolding lock unlock eval_lua_script send build_args
locked_run = (refl, refl, refl, refl, refl)

-- The context of a request that has ended, and of a request that is nil.
build_args_run :
    (build_args true (gin 1 true) [] ≡ some (context background ∷ []))
    × (build_args true (plain 1 false) [] ≡ some (context (plain 1 false) ∷ []))
    × (build_args true gin_no_request [] ≡ none)
unfolding build_args
build_args_run = (refl, refl, refl)

redis_hgetall_to_map_run :
    (redis_hgetall_to_map (none ∷ some [] ∷ none ∷ some (codes "a") ∷ [])
      ≡ ok ([] ∷ codes "a" ∷ []))
    × (redis_hgetall_to_map (none ∷ []) ≡ panicked)
unfolding redis_hgetall_to_map
redis_hgetall_to_map_run = (refl, refl)

lock-table_example :
    ((lock (sample 1) false "k" "v" (pos 10) background start).0 ≡ ok true)
    × ((j : String)
        → (lock (sample 1) false "k" "v" (pos 10) background start).1.server j
          ≡ locked (λ k. none) "k" "v" none j)
    × ((unlock (sample 1) false "k" "v" background start).0 ≡ error not_owner)
    × ((j : String) → (unlock (sample 1) false "k" "v" background start).1.server j ≡ none)
lock-table_example =
    lock-table (sample 1) false (λ w. w) sample-IsServer start "k" "v" 9 background
      (lock_args "k" "v" 9) (unlock_args "k" "v") refl lock_built unlock_built

lock-excludes_example :
    (lock (sample 1) false "k" "w" (pos 5) background (
      run_calls
        (sample 1)
        false
        (lock_call "k" "w" 9 background ∷ unlock_call "k" "w" background ∷ [])
        (lock (sample 1) false "k" "v" (pos 10) background start).1)).0
    ≢ ok true
lock-excludes_example =
    lock-excludes (sample 1) false (λ w. w) sample-IsServer start "k" "v" 9 background
      (lock_call "k" "w" 9 background ∷ unlock_call "k" "w" background ∷ []) "w" 4 background
      first_lock (tt, (inr v_is_not_w, tt))

like_deletes-starved_example :
    like_deletes (sample 1) false "x" background start
    ≡ (error "exhausted", record { server = λ k. none; held = 0 })
like_deletes-starved_example =
    like_deletes-starved (sample 1) false background [] untraced "x" start "a" ("b" ∷ []) refl refl
      refl refl
