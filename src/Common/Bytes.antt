-- ===== src/Common/Bytes.antt =====
-- Texts that the code takes apart: lists of bytes, or of characters, with what the code uses of Go's
-- packages strings and strconv.
use Prim.Native.Char.{code}
use Prim.Native.String.{String}
use Prim.Native.Nat.{ℕ, zero, suc, ◌+◌, ◌-◌, ◌*◌, ◌/◌, ◌%◌, ◌^◌}
use mathlib.Core.Bool.{Bool, true, false, ◌&&◌, ◌||◌}
use mathlib.Core.Option.{Option, none, some}
use mathlib.Core.List.{List, [], ◌∷◌, reverse}
use soelib.Common.Tests.{leb, ltb, ◌==◌, if◌then◌else◌}
use soelib.Common.Int.{ℤ, pos, negsuc, sub_ℕ}

-- The bytes of a text in ASCII.
abbrev pub codes : String → List ℕ
codes String.[] = []
codes (String.◌∷◌ c s) = code c ∷ codes s

-- What follows a prefix.
abbrev pub after_prefix : List ℕ → List ℕ → Option (List ℕ)
after_prefix [] s = some s
after_prefix (p ∷ ps) [] = none
after_prefix (p ∷ ps) (c ∷ cs) = let rest = after_prefix ps cs in if p == c then rest else none

-- `strings.Replace(s, old, "", 1)`
abbrev pub without_first : List ℕ → List ℕ → List ℕ
without_first old [] = []
without_first old (c ∷ cs) =
    let rest = without_first old cs in
    elim (after_prefix old (c ∷ cs)) [ some r ↦ r | none ↦ c ∷ rest ]

-- `s[:a]` and `s[a:]` for the index `a` of a byte; none where the text does not have it.
abbrev pub cut_at : ℕ → List ℕ → Option (List ℕ × List ℕ)
cut_at b [] = none
cut_at b (c ∷ cs) =
    let rest = cut_at b cs in
    if c == b then some ([], c ∷ cs) else elim rest [ none ↦ none | some (l, r) ↦ some (c ∷ l, r) ]

-- The first piece of `strings.Split` at a byte.
abbrev pub first_piece : ℕ → List ℕ → List ℕ
first_piece b [] = []
first_piece b (c ∷ cs) = let rest = first_piece b cs in if c == b then [] else c ∷ rest

-- The second one, if there is one.
abbrev pub second_piece : ℕ → List ℕ → Option (List ℕ)
second_piece b [] = none
second_piece b (c ∷ cs) =
    let rest = second_piece b cs in if c == b then some (first_piece b cs) else rest

-- `unicode.IsSpace`
abbrev pub is_space : ℕ → Bool
is_space c =
    (leb 9 c && leb c 13)
    || c == 32
    || c == 0x85
    || c == 0xa0
    || c == 0x1680
    || (leb 0x2000 c && leb c 0x200a)
    || c == 0x2028
    || c == 0x2029
    || c == 0x202f
    || c == 0x205f
    || c == 0x3000

abbrev pub trim_left : List ℕ → List ℕ
trim_left [] = []
trim_left (c ∷ cs) = let rest = trim_left cs in if is_space c then rest else c ∷ cs

-- `strings.TrimSpace`
unfoldable pub trim_space : List ℕ → List ℕ
trim_space s = reverse (trim_left (reverse (trim_left s)))

abbrev pub is_digit : ℕ → Bool
is_digit c = leb 48 c && leb c 57

-- The value of decimal digits after others, if all are digits; it stops at the first that leaves the
-- range of 64 bits.
abbrev pub digits_value : ℕ → List ℕ → Option ℕ
digits_value v [] = some v
digits_value v (c ∷ cs) =
    let v' = v * 10 + (c - 48) in
    let rest = digits_value v' cs in
    if is_digit c then (if ltb v' (2 ^ 64) then rest else some (2 ^ 64)) else none

-- `strconv.ParseInt(s, 10, 64)` and `strconv.Atoi`: the value, and whether there is no error. A value
-- out of range comes with the nearest one that is in range, a text that is no number with 0.
abbrev pub in_range : Bool → Option ℕ → ℤ × Bool
in_range negative none = (pos 0, false)
in_range false (some n) = if ltb n (2 ^ 63) then (pos n, true) else (pos (2 ^ 63 - 1), false)
in_range true (some n) = if leb n (2 ^ 63) then (sub_ℕ 0 n, true) else (negsuc (2 ^ 63 - 1), false)

abbrev pub unsigned : List ℕ → Option ℕ
unsigned [] = none
unsigned (c ∷ cs) = digits_value 0 (c ∷ cs)

unfoldable pub parse_int : List ℕ → ℤ × Bool
parse_int [] = (pos 0, false)
parse_int (c ∷ cs) =
    if c == b'-'
    then in_range true (unsigned cs)
    else in_range false (if c == b'+' then unsigned cs else unsigned (c ∷ cs))

-- The decimal digits of a number before other bytes, on fuel.
abbrev pub digits_before : ℕ → ℕ → List ℕ → List ℕ
digits_before zero n acc = acc
digits_before (suc fuel) n acc =
    let rest = digits_before fuel (n / 10) ((48 + n % 10) ∷ acc) in if n == 0 then acc else rest

-- `%d`; as many rounds as the number says are enough.
unfoldable pub decimal : ℤ → List ℕ
decimal (pos zero) = 48 ∷ []
decimal (pos (suc n)) = digits_before (suc n) (suc n) []
decimal (negsuc n) = b'-' ∷ digits_before (suc n) (suc n) []
