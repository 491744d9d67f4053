-- ===== src/Redis/Locking.antt =====
-- What the lock of common/db/specialdb/redis.go promises: it is a table of the holders of names.
use soelib.Common.{
  ℕ, suc, List, [], ◌∷◌, Option, none, some, Option-cases, Bool, true, false, Bool-cases, ◌⊎◌, inl,
  inr, ◌≡◌, refl,
}
use soelib.Common.Int.{pos}
use soelib.Common.Text.{String, text_eq}
use soelib.Redis.Script.{Script, run_script, set_at}
use soelib.Redis.Pool.{
  script, Context, Arg, text, number, Answer, Library, State, Result, panicked, build_args,
  no_answer, send,
}
use soelib.Redis.Commands.{one, unlock_script}

abbrev pub lock_args : String → String → ℕ → List Arg
lock_args k v n = text k ∷ text v ∷ text "EX" ∷ number (pos (suc n)) ∷ text "NX" ∷ []

abbrev pub unlock_args : String → String → List Arg
unlock_args k v = script unlock_script ∷ number (pos 1) ∷ text k ∷ text v ∷ []

abbrev pub is_free : Option String → Bool
is_free none = true
is_free (some v) = false

module _ {W R : Type 0} (lib : Library W R) (trace : Bool) where
  -- What a command does to the server, whatever context follows its arguments.
  abbrev pub Does :
      (W → String → Option String)
      → String
      → List Arg
      → W
      → (Answer R → Type 0)
      → (String → Option String)
      → Type 0
  Does holder command args w P t =
      (c : Context) (built : List Arg)
      → build_args trace c args ≡ some built
      → P (lib.perform command built w).0
        × ((j : String) → holder (lib.perform command built w).1 j ≡ t j)

  -- The documented behaviour of the server and of the library: `SET` with `NX` sets only a key that
  -- does not exist, and answers nil otherwise; `EVAL` runs the
  -- script that it is given, and answers what it returns; a decoder returns the error that it is given. `holder` is
  -- the value of a key. No key expires.
  pub record IsServer (holder : W → String → Option String) : Type 0 where
    pub unsent : lib.to_string (no_answer lib) ≡ inl lib.exhausted
    pub set_free :
        (w : W) (k v : String) (n : ℕ)
        → holder w k ≡ none
        → Does holder "SET"
            (lock_args k v n)
            w
            (λ a. lib.to_string a ≡ inr "OK")
            (set_at (holder w) k (some v))
    pub set_taken :
        (w : W) (k v u : String) (n : ℕ)
        → holder w k ≡ some u
        → Does holder "SET"
            (lock_args k v n)
            w
            (λ a. (e : String) × (lib.to_string a ≡ inl e) × (lib.is_err_nil e ≡ true))
            (holder w)
    pub eval :
        (w : W) (k v : String) (p : Script)
        → Does holder "EVAL"
            (script p ∷ number (pos 1) ∷ text k ∷ text v ∷ [])
            w
            (λ a.
              lib.to_int (record { reply = a.reply; err = none })
              ≡ inr (pos (run_script p (holder w) k v).0))
            (run_script p (holder w) k v).1

  -- Either nothing is sent, or the answer makes the result.
  pub one-cases :
      {A : Type 0} (command : String) (args : List Arg) (f : Answer R → Result A) (c : Context)
      (s : State W)
      → (((one lib trace command args f c s).1.server ≡ s.server)
          × (((one lib trace command args f c s).0 ≡ panicked)
              ⊎ ((one lib trace command args f c s).0 ≡ f (no_answer lib))))
        ⊎ ((built : List Arg) × (build_args trace c args ≡ some built)
            × ((one lib trace command args f c s).0 ≡ f (lib.perform command built s.server).0)
            × ((one lib trace command args f c s).1.server
                ≡ (lib.perform command built s.server).1))
  unfolding send
  one-cases command args f c s = elim (Option-cases (build_args trace c args)) [
    | inl e ↦ elim (Bool-cases (lib.available s.held)) [
      | inl g ↦ inl (rw (g, e) refl, inl (rw (g, e) refl))
      | inr g ↦ inl (rw (g, e) refl, inl (rw (g, e) refl))
    ]
    | inr (built, e) ↦ elim (Bool-cases (lib.available s.held)) [
      | inl g ↦ inr (built, e, rw (g, e) refl, rw (g, e) refl)
      | inr g ↦ inl (rw (g, e) refl, inr (rw (g, e) refl))
    ]
  ]

  pub one-sent :
      {A : Type 0} (command : String) (args built : List Arg) (f : Answer R → Result A)
      (c : Context) (s : State W)
      → lib.available s.held ≡ true
      → build_args trace c args ≡ some built
      → ((one lib trace command args f c s).0 ≡ f (lib.perform command built s.server).0)
        × ((one lib trace command args f c s).1.server ≡ (lib.perform command built s.server).1)
  unfolding send
  one-sent command args built f c s g e = (rw (g, e) refl, rw (g, e) refl)
