-- ===== src/Redis/Script.antt =====
-- The Lua of the scripts that common/db/specialdb/redis.go sends with one key and one argument: the
-- syntax that it uses, its text, and what a server does that runs it.
use soelib.Common.{ℕ, Option, none, some, Bool, true, false, if◌then◌else◌}
use soelib.Common.Text.{String, ◌<>◌, text_eq}

pub data Value : Type 0 where
  get_key argument : Value

pub data Script : Type 0 where
  return_del return_zero : Script
  if_equal : Value → Value → Script → Script → Script

-- The text, as `EVAL` is given it.
abbrev value_text : Value → String
value_text get_key = "redis.call(\"get\", KEYS[1])"
value_text argument = "ARGV[1]"

abbrev lines : String → Script → String
lines indent return_del = indent <> "return redis.call(\"del\", KEYS[1])\n"
lines indent return_zero = indent <> "return 0\n"
lines indent (if_equal a b p q) =
    indent
    <> ("if "
        <> (value_text a
            <> (" == "
                <> (value_text b
                    <> (" then\n"
                        <> (lines (indent <> "\t") p
                            <> (indent
                                <> ("else\n"
                                    <> (lines (indent <> "\t") q <> (indent <> "end\n"))))))))))

abbrev pub script_text : Script → String
script_text p = "\n" <> (lines "\t\t" p <> "\t")

-- The table of the texts of the keys.
abbrev pub set_at : (String → Option String) → String → Option String → String → Option String
set_at t k o j = if text_eq.beq j k then o else t j

abbrev value_of : Value → Option String → String → Option String
value_of get_key held v = held
value_of argument held v = some v

abbrev same_value : Option String → Option String → Bool
same_value none none = true
same_value (some a) (some b) = text_eq.beq a b
same_value _ _ = false

-- `DEL` answers how many keys it has deleted.
abbrev count_of : Option String → ℕ
count_of none = 0
count_of (some u) = 1

-- What the script returns, and the table after it.
abbrev pub run_script :
    Script → (String → Option String) → String → String → ℕ × (String → Option String)
run_script return_del t k v = (count_of (t k), set_at t k none)
run_script return_zero t k v = (0, t)
run_script (if_equal a b p q) t k v =
    let yes = run_script p t k v in
    let no = run_script q t k v in
    if same_value (value_of a (t k) v) (value_of b (t k) v) then yes else no
