-- ===== src/Utils/Cut.antt =====
-- `SubstrByByte` of common/utils/string.go: a cut of a UTF-8 text to a number of bytes, at the end of a
-- character. The loop goes back over the bytes, so that it is a recursion on their reverse.
use soelib.Common.{
  ℕ, suc, ◌+◌, ◌-◌, List, [], ◌∷◌, ◌++◌, replicate, Option, some, none, leb, ◌==◌, if◌then◌else◌,
  length, take, bit_and,
}

-- How many bytes the character of a first byte has.
unfoldable pub width : ℕ → ℕ
width b =
    if bit_and b 252 == 252
    then 6
    else if bit_and b 248 == 248
    then 5
    else if bit_and b 240 == 240
    then 4
    else if bit_and b 224 == 224
    then 3
    else 2

abbrev pub backwards : List ℕ → List ℕ → List ℕ
backwards [] acc = acc
backwards (b ∷ bs) acc = backwards bs (b ∷ acc)

-- The bytes before the index, the nearest first, and `bl`. A byte of 254 or 255 has no case.
abbrev pub cut_loop : List ℕ → List ℕ → ℕ → List ℕ
cut_loop bs [] bl = []
cut_loop bs (b ∷ before) bl =
    let i = length before in
    let rest = cut_loop bs before (if leb b 191 then suc bl else bl) in
    if leb b 127
    then take (i + 1) bs
    else if leb b 191
    then rest
    else if leb b 253
    then (if suc bl == width b then take (i + width b) bs else take i bs)
    else rest

-- The bytes of the text have room for `spare` more behind them, which are 0: how many is up to Go. None
-- is the panic of a length over the capacity.
unfoldable pub substr_by_byte : ℕ → List ℕ → ℕ → Option (List ℕ)
substr_by_byte spare str n =
    let bs = take n (str ++ replicate (n - length str) 0) in
    if leb n (length str + spare) then some (cut_loop bs (backwards bs []) 0) else none
