-- ===== src/Redis/LikeDeletes.antt =====
-- `LikeDeletes` of common/db/specialdb/redis.go, which deletes each key over a connection of its own
-- while it has one.
use soelib.Common.{
  ◌+◌, ◌-◌, List, [], ◌∷◌, ◌++◌, some, Bool, true, false, inl, inr, ◌≡◌, refl, arith,
}
use soelib.Common.Text.{String, ◌<>◌}
use soelib.Redis.Pool.{
  Context, Arg, text, Answer, Library, State, ok, error, build_args, no_answer, send,
}
use soelib.Redis.Commands.{delete, delete_all, like_deletes}

module _ {W R : Type 0} (lib : Library W R) (trace : Bool) (c : Context) (extra : List Arg)
    (built : (args : List Arg) → build_args trace c args ≡ some (args ++ extra)) where
  -- The server after its commands to delete the keys.
  abbrev pub delete_each : List String → W → W
  delete_each [] w = w
  delete_each (key ∷ keys) w = delete_each keys (lib.perform "DEL" (text key ∷ extra) w).1

  abbrev pub find_keys : String → W → Answer R × W
  find_keys key = lib.perform "KEYS" (text ("*" <> (key <> "*")) ∷ extra)

  delete-sent :
      (key : String) (s : State W)
      → lib.available s.held ≡ true
      → (b : Bool) → lib.to_bool (lib.perform "DEL" (text key ∷ extra) s.server).0 ≡ inr b
      → delete lib trace key c s ≡ (
        ok b,
        record { server = (lib.perform "DEL" (text key ∷ extra) s.server).1; held = s.held },
      )
  unfolding delete send
  delete-sent key s g b h =
      let e : s.held + 1 - 1 ≡ s.held = omega arith in rw (g, built (text key ∷ []), h, e) refl

  delete_all-sent :
      (answers : (w : W) (key : String)
        → (b : Bool) × (lib.to_bool (lib.perform "DEL" (text key ∷ extra) w).0 ≡ inr b))
      (keys : List String) (s : State W)
      → lib.available s.held ≡ true
      → delete_all lib trace c keys s
        ≡ (ok tt, record { server = delete_each keys s.server; held = s.held })
  unfolding delete_all
  delete_all-sent answers [] s g = refl
  delete_all-sent answers (key ∷ keys) s g =
      let b = answers s.server key in
      rw (delete-sent key s g b.0 b.1) (delete_all-sent answers keys _ g)

  -- If the pool gives a second connection and the server answers each deletion with a number,
  -- `LikeDeletes` sends a command to delete each key that the server has found, in their order,
  -- returns no error, and has given back its connections.
  pub like_deletes-deletes :
      (key : String) (s : State W) (keys : List String)
      → lib.available s.held ≡ true
      → lib.available (s.held + 1) ≡ true
      → lib.to_strings (find_keys key s.server).0 ≡ inr keys
      → ((w : W) (k : String)
          → (b : Bool) × (lib.to_bool (lib.perform "DEL" (text k ∷ extra) w).0 ≡ inr b))
      → like_deletes lib trace key c s
        ≡ (ok tt, record { server = delete_each keys (find_keys key s.server).1; held = s.held })
  unfolding like_deletes send
  like_deletes-deletes key s keys g more found answers =
      let e : s.held + 1 - 1 ≡ s.held = omega arith in
      rw (g, built (text ("*" <> (key <> "*")) ∷ []), found) rw
        (delete_all-sent answers keys
          (record { server = (find_keys key s.server).1; held = s.held + 1 }) more)
        rw e refl

  -- If the pool has only one connection to give, `LikeDeletes` returns the error of the exhausted pool
  -- when the server finds a key, and has deleted none.
  pub like_deletes-starved :
      (key : String) (s : State W) (k : String) (keys : List String)
      → lib.available s.held ≡ true
      → lib.available (s.held + 1) ≡ false
      → lib.to_strings (find_keys key s.server).0 ≡ inr (k ∷ keys)
      → lib.to_bool (no_answer lib) ≡ inl lib.exhausted
      → like_deletes lib trace key c s
        ≡ (error lib.exhausted, record { server = (find_keys key s.server).1; held = s.held })
  unfolding like_deletes delete_all delete send
  like_deletes-starved key s k keys g none_left found e =
      let h : s.held + 1 - 1 ≡ s.held = omega arith in
      rw (g, built (text ("*" <> (key <> "*")) ∷ []), found, none_left, built (text k ∷ []), e, h)
        refl
