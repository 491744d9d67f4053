-- ===== src/Redis/Exclusion.antt =====
-- Who gets the lock of common/db/specialdb/redis.go.
use soelib.Common.{
  ℕ, suc, List, [], ◌∷◌, Option, none, some, Option-cases, Bool, true, false, Bool-cases, ◌⊎◌, inl,
  inr, ◌≡◌, ◌≢◌, refl, sym, ap, ◌∙◌, All,
}
use mathlib.Core.Option.{some-ne-none, some-injective}
use soelib.Common.Int.{pos}
use soelib.Common.Text.{String, text_eq}
use soelib.Redis.Script.{run_script, set_at}
use soelib.Redis.Pool.{Context, Arg, Library, State, Result, ok, error, build_args}
use soelib.Redis.Commands.{
  lock, lock_answer, unlock, unlock_script, not_owner, eval_lua_script, deleted,
}
use soelib.Redis.Locking.{lock_args, unlock_args, is_free, IsServer, one-cases, one-sent}

-- The lock as an abstract table.
abbrev pub locked :
    (String → Option String) → String → String → Option String → String → Option String
locked t k v none = set_at t k (some v)
locked t k v (some u) = t

abbrev pub owns : Option String → String → Bool
owns none v = false
owns (some u) v = text_eq.beq u v

abbrev pub released :
    (String → Option String) → String → Bool → Result (Unit {0}) × (String → Option String)
released t k true = (ok tt, set_at t k none)
released t k false = (error not_owner, t)

owns-eq : (o : Option String) (v : String) → owns o v ≡ true → o ≡ some v
owns-eq none v h = absurd (cc h)
owns-eq (some u) v h = ap some ((text_eq.beq_iff u v).0 h)

-- What the script of `Unlock` does: it deletes the key of the owner, and nothing of another's.
abbrev ran : (String → Option String) → String → Bool → ℕ × (String → Option String)
ran t k true = (1, set_at t k none)
ran t k false = (0, t)

unlock_script-ran :
    (t : String → Option String) (k v : String) (b : Bool)
    → owns (t k) v ≡ b
    → run_script unlock_script t k v ≡ ran t k b
unlock_script-ran t k v true h =
    let e = owns-eq (t k) v h in
    let here : text_eq.beq v v ≡ true = (text_eq.beq_iff v v).1 refl in rw (e, here) refl
unlock_script-ran t k v false h = go (t k) refl h
  where
    go :
        (o : Option String)
        → t k ≡ o
        → owns o v ≡ false
        → run_script unlock_script t k v ≡ ran t k false
    go none e h = rw e refl
    go (some u) e h = rw (e, h) refl

-- `Lock` or `Unlock`, with its key, its value and its context; the expiry of a lock is one more than
-- the number.
pub data LockCall : Type 0 where
  lock_call : String → String → ℕ → Context → LockCall
  unlock_call : String → String → Context → LockCall

-- Not the `Unlock` of a key with a value.
abbrev pub IsOther : String → String → LockCall → Type 0
IsOther k v (lock_call j u n c) = Unit
IsOther k v (unlock_call j u c) = (k ≢ j) ⊎ (v ≢ u)

module _ {W R : Type 0} (lib : Library W R) (trace : Bool) where
  abbrev pub call : LockCall → State W → State W
  call (lock_call k v n c) s = (lock lib trace k v (pos (suc n)) c s).1
  call (unlock_call k v c) s = (unlock lib trace k v c s).1

  abbrev pub run_calls : List LockCall → State W → State W
  run_calls [] s = s
  run_calls (x ∷ xs) s = run_calls xs (call x s)

  module _ (holder : W → String → Option String) (laws : IsServer lib trace holder) where
    locked_by :
        (s : State W) (k v : String) (n : ℕ) (c : Context) (built : List Arg)
        → lib.available s.held ≡ true
        → build_args trace c (lock_args k v n) ≡ some built
        → (o : Option String) → holder s.server k ≡ o
        → ((lock lib trace k v (pos (suc n)) c s).0 ≡ ok (is_free o))
          × ((j : String)
              → holder (lock lib trace k v (pos (suc n)) c s).1.server j
                ≡ locked (holder s.server) k v o j)
    unfolding lock
    locked_by s k v n c built g b none h =
        let sent =
          one-sent lib trace "SET" (lock_args k v n) built
            (λ a. lock_answer lib trace (lib.to_string a)) c s g b in
        let law = laws.set_free s.server k v n h c built b in
        (sent.0 ∙ ap (lock_answer lib trace) law.0, λ j. rw sent.1 (law.1 j))
    locked_by s k v n c built g b (some u) h =
        let sent =
          one-sent lib trace "SET" (lock_args k v n) built
            (λ a. lock_answer lib trace (lib.to_string a)) c s g b in
        let law = laws.set_taken s.server k v u n h c built b in
        (sent.0 ∙ rw (law.0.1, law.0.2) refl, λ j. rw sent.1 (law.1 j))

    unlocked_by :
        (s : State W) (k v : String) (c : Context) (built : List Arg)
        → lib.available s.held ≡ true
        → build_args trace c (unlock_args k v) ≡ some built
        → (b : Bool) → owns (holder s.server k) v ≡ b
        → ((unlock lib trace k v c s).0 ≡ (released (holder s.server) k b).0)
          × ((j : String)
              → holder (unlock lib trace k v c s).1.server j ≡ (released (holder s.server) k b).1 j)
    unfolding unlock eval_lua_script
    unlocked_by s k v c built g e true h =
        let sent =
          one-sent lib trace "EVAL" (unlock_args k v) built
            (λ a. deleted (lib.to_int (record { reply = a.reply; err = none }))) c s g e in
        let law = laws.eval s.server k v unlock_script c built e in
        let r = unlock_script-ran (holder s.server) k v true h in
        (
          sent.0 ∙ ap deleted (law.0 ∙ ap (λ p. inr (pos p.0)) r),
          λ j. rw sent.1 (law.1 j ∙ ap (λ p. p.1 j) r),
        )
    unlocked_by s k v c built g e false h =
        let sent =
          one-sent lib trace "EVAL" (unlock_args k v) built
            (λ a. deleted (lib.to_int (record { reply = a.reply; err = none }))) c s g e in
        let law = laws.eval s.server k v unlock_script c built e in
        let r = unlock_script-ran (holder s.server) k v false h in
        (
          sent.0 ∙ ap deleted (law.0 ∙ ap (λ p. inr (pos p.0)) r),
          λ j. rw sent.1 (law.1 j ∙ ap (λ p. p.1 j) r),
        )

    -- Over a server that does what its documentation says, with a connection to be had, `Lock` and
    -- `Unlock` are the operations of a table: `Lock` enters the value and returns true if the key is
    -- free, and else returns false and changes nothing; `Unlock` takes out the key if it has the
    -- value, and else returns an error and changes nothing.
    pub lock-table :
        (s : State W) (k v : String) (n : ℕ) (c : Context) (built taken : List Arg)
        → lib.available s.held ≡ true
        → build_args trace c (lock_args k v n) ≡ some built
        → build_args trace c (unlock_args k v) ≡ some taken
        → ((lock lib trace k v (pos (suc n)) c s).0 ≡ ok (is_free (holder s.server k)))
          × ((j : String)
              → holder (lock lib trace k v (pos (suc n)) c s).1.server j
                ≡ locked (holder s.server) k v (holder s.server k) j)
          × ((unlock lib trace k v c s).0
              ≡ (released (holder s.server) k (owns (holder s.server k) v)).0)
          × ((j : String)
              → holder (unlock lib trace k v c s).1.server j
                ≡ (released (holder s.server) k (owns (holder s.server k) v)).1 j)
    lock-table s k v n c built taken g b t =
        let l = locked_by s k v n c built g b _ refl in
        let u = unlocked_by s k v c taken g t _ refl in (l.0, l.1, u.0, u.1)

    -- What a call leaves of a key that another holds.
    set-keeps :
        (w : W) (k v j u : String) (n : ℕ) (c : Context) (built : List Arg)
        → build_args trace c (lock_args j u n) ≡ some built
        → holder w k ≡ some v
        → holder (lib.perform "SET" built w).1 k ≡ some v
    set-keeps w k v j u n c built b h = elim (Option-cases (holder w j)) [
      | inl e ↦
          let ne : text_eq.beq k j ≡ false = elim (Bool-cases (text_eq.beq k j)) [
            | inl q ↦
                absurd (some-ne-none v (sym h ∙ ap (holder w) ((text_eq.beq_iff k j).0 q) ∙ e))
            | inr q ↦ q
          ] in
          (laws.set_free w j u n e c built b).1 k ∙ rw ne h
      | inr (x, e) ↦ (laws.set_taken w j u x n e c built b).1 k ∙ h
    ]

    eval-keeps :
        (w : W) (k v j u : String) (c : Context) (built : List Arg)
        → build_args trace c (unlock_args j u) ≡ some built
        → (k ≢ j) ⊎ (v ≢ u)
        → holder w k ≡ some v
        → holder (lib.perform "EVAL" built w).1 k ≡ some v
    eval-keeps w k v j u c built b d h = elim (Bool-cases (owns (holder w j) u)) [
      | inl q ↦
          let own = owns-eq _ u q in
          let ne : k ≢ j = elim d [
            | inl ne ↦ ne
            | inr ne ↦ λ e. ne (some-injective _ _ (sym h ∙ ap (holder w) e ∙ own))
          ] in
          (laws.eval w j u unlock_script c built b).1 k
          ∙ ap (λ p. p.1 k) (unlock_script-ran (holder w) j u true q)
          ∙ elim (Bool-cases (text_eq.beq k j)) [
            | inl p ↦ absurd (ne ((text_eq.beq_iff k j).0 p))
            | inr p ↦ rw p h
          ]
      | inr q ↦
          (laws.eval w j u unlock_script c built b).1 k
          ∙ ap (λ p. p.1 k) (unlock_script-ran (holder w) j u false q)
          ∙ h
    ]

    call-keeps :
        (k v : String) (x : LockCall) (s : State W)
        → IsOther k v x
        → holder s.server k ≡ some v
        → holder (call x s).server k ≡ some v
    unfolding lock unlock eval_lua_script
    call-keeps k v (lock_call j u n c) s d h =
        elim (one-cases lib trace "SET" (lock_args j u n)
          (λ a. lock_answer lib trace (lib.to_string a)) c s) [
            | inl e ↦ rw e.0 h
            | inr e ↦ rw e.3 (set-keeps s.server k v j u n c e.0 e.1 h)
          ]
    call-keeps k v (unlock_call j u c) s d h =
        elim (one-cases lib trace "EVAL" (unlock_args j u)
          (λ a. deleted (lib.to_int (record { reply = a.reply; err = none }))) c s) [
            | inl e ↦ rw e.0 h
            | inr e ↦ rw e.3 (eval-keeps s.server k v j u c e.0 e.1 d h)
          ]

    calls-keep :
        (k v : String) (xs : List LockCall) (s : State W)
        → All (IsOther k v) xs
        → holder s.server k ≡ some v
        → holder (run_calls xs s).server k ≡ some v
    calls-keep k v [] s d h = h
    calls-keep k v (x ∷ xs) s d h = calls-keep k v xs (call x s) d.1 (call-keeps k v x s d.0 h)

    refused : (t : String ⊎ String) (e : String) → t ≡ inl e → lock_answer lib trace t ≢ ok true
    refused t e h k = elim (Bool-cases (lib.is_err_nil e)) [
      | inl q ↦ let x : ok false ≡ ok true = rw (h, q) at k in absurd (cc x)
      | inr q ↦ let x : error e ≡ ok true = rw (h, q) at k in absurd (cc x)
    ]

    locks :
        (s : State W) (k v : String) (n : ℕ) (c : Context)
        → (lock lib trace k v (pos (suc n)) c s).0 ≡ ok true
        → (holder s.server k ≡ none)
          × (holder (lock lib trace k v (pos (suc n)) c s).1.server k ≡ some v)
    unfolding lock
    locks s k v n c h =
        elim (one-cases lib trace "SET" (lock_args k v n)
          (λ a. lock_answer lib trace (lib.to_string a)) c s) [
            | inl (same, inl e) ↦ absurd (cc (sym e ∙ h))
            | inl (same, inr e) ↦ absurd (refused _ _ laws.unsent (sym e ∙ h))
            | inr (built, b, r, w) ↦ elim (Option-cases (holder s.server k)) [
              | inl e ↦
                  let here : text_eq.beq k k ≡ true = (text_eq.beq_iff k k).1 refl in
                  (e, rw w ((laws.set_free s.server k v n e c built b).1 k ∙ rw here refl))
              | inr (u, e) ↦
                  let law = laws.set_taken s.server k v u n e c built b in
                  let taken : lock_answer lib trace
                        (lib.to_string (lib.perform "SET" built s.server).0)
                      ≡ ok false =
                    rw (law.0.1, law.0.2) refl in
                  let x : ok false ≡ ok true = sym taken ∙ (sym r ∙ h) in absurd (cc x)
            ]
          ]

    -- Over a server that does what its documentation says, and as long as the key does not expire:
    -- after a `Lock` that has returned true, no other `Lock` of the key returns true, however many
    -- calls of `Lock` and `Unlock` come in between, unless one of them is the `Unlock` of the key with
    -- the value of the first. This also holds of calls that got no connection.
    pub lock-excludes :
        (s : State W) (k v : String) (n : ℕ) (c : Context) (xs : List LockCall) (u : String) (m : ℕ)
        (d : Context)
        → (lock lib trace k v (pos (suc n)) c s).0 ≡ ok true
        → All (IsOther k v) xs
        → (lock lib trace k u
            (pos (suc m))
            d
            (run_calls xs (lock lib trace k v (pos (suc n)) c s).1)).0
          ≢ ok true
    lock-excludes s k v n c xs u m d h others again =
        let kept = calls-keep k v xs _ others (locks s k v n c h).1 in
        some-ne-none v (sym kept ∙ (locks _ k u m d again).0)
