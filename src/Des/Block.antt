-- ===== src/Des/Block.antt =====
-- The bit and byte steps of common/des/soedes.go: the six permutation loops, the substitution,
-- the key schedule, one round, and `desData` on one block of eight bytes. A byte is a number below
-- 256 and an array or slice a list; every index that the code reads is within its array, so that
-- the default of `get_or` is never returned.
use soelib.Common.{
  ℕ, zero, suc, ◌+◌, ◌-◌, ◌^◌, bit_and, bit_or, bit_xor, ◌>>◌, shl8, has_bit, List, [], ◌∷◌, ◌++◌,
  Bool, if◌then◌else◌, get_or, set, take, drop, replicate,
}
use mathlib.Core.List.{reverse}
use soelib.Des.Tables.{bit_ip, bit_cp, bit_exp, bit_pm, bit_pmc1, bit_pmc2, s_box, bit_displace}

-- Bit `k` of an array of bytes, the highest bit of a byte first.
abbrev pub bit_at : List ℕ → ℕ → Bool
bit_at xs k = has_bit (get_or xs (k >> 3) 0) (7 - bit_and k 7)

-- `if bit t of in is set { out[i>>3] |= 1 << (7 - (i & 7)) }`
abbrev pub copy_bit : List ℕ → ℕ → ℕ → List ℕ → List ℕ
copy_bit from t i out =
    if bit_at from t
    then set out (i >> 3) (bit_or (get_or out (i >> 3) 0) (2 ^ (7 - bit_and i 7)))
    else out

-- The loop of each permutation: `i` runs over the indices of its table.
unfoldable pub copy_bits : List ℕ → List ℕ → ℕ → List ℕ → List ℕ
copy_bits from [] i out = out
copy_bits from (t ∷ table) i out = copy_bits from table (i + 1) (copy_bit from t i out)

unfoldable pub init_permutation : List ℕ → List ℕ
init_permutation in_data = copy_bits in_data bit_ip 0 (replicate 8 0)

unfoldable pub converse_permutation : List ℕ → List ℕ
converse_permutation in_data = copy_bits in_data bit_cp 0 (replicate 8 0)

unfoldable pub expand : List ℕ → List ℕ
expand in_data = copy_bits in_data bit_exp 0 (replicate 6 0)

-- Only the first four of the six bytes are written back.
unfoldable pub permutation : List ℕ → List ℕ
permutation in_data = copy_bits in_data bit_pm 0 (replicate 4 0) ++ drop 4 in_data

unfoldable pub permutation_choose1 : List ℕ → List ℕ
permutation_choose1 in_data = copy_bits in_data bit_pmc1 0 (replicate 7 0)

unfoldable pub permutation_choose2 : List ℕ → List ℕ
permutation_choose2 in_data = copy_bits in_data bit_pmc2 0 (replicate 6 0)

-- The index into a row of the substitution: the outer bits of the six, then the inner four.
unfoldable pub si_index : ℕ → ℕ
si_index b = bit_or (bit_or (bit_and b 0x20) (bit_and b 0x1e >> 1)) (shl8 (bit_and b 0x01) 4)

unfoldable pub si : ℕ → ℕ → ℕ
unfolding si_index
si s in_byte = bit_and (get_or (get_or s_box s []) (si_index in_byte) 0) 0x0f

-- One turn of the 28 bits to the left.
unfoldable pub turn : List ℕ → List ℕ
turn k =
    let k0 = bit_or (shl8 (get_or k 0 0) 1) (get_or k 1 0 >> 7) in
    let k1 = bit_or (shl8 (get_or k 1 0) 1) (get_or k 2 0 >> 7) in
    let k2 = bit_or (shl8 (get_or k 2 0) 1) (get_or k 3 0 >> 7) in
    let k3 = bit_or (shl8 (get_or k 3 0) 1) (bit_and k0 0x10 >> 4) in
    bit_and k0 0x0f ∷ k1 ∷ k2 ∷ k3 ∷ []

unfoldable pub cycle_move : List ℕ → ℕ → List ℕ
unfolding turn
cycle_move k zero = k
cycle_move k (suc moves) = cycle_move (turn k) moves

abbrev join_halves : List ℕ → List ℕ → List ℕ
join_halves l r =
    bit_or (shl8 (get_or l 0 0) 4) (get_or l 1 0 >> 4)
    ∷ bit_or (shl8 (get_or l 1 0) 4) (get_or l 2 0 >> 4)
    ∷ bit_or (shl8 (get_or l 2 0) 4) (get_or l 3 0 >> 4)
    ∷ bit_or (shl8 (get_or l 3 0) 4) (get_or r 0 0)
    ∷ get_or r 1 0
    ∷ get_or r 2 0
    ∷ get_or r 3 0
    ∷ []

-- The loop of `makeKey` over the displacements: a sub-key for each.
unfoldable pub make_keys : List ℕ → List ℕ → List ℕ → List (List ℕ)
unfolding cycle_move permutation_choose2
make_keys [] l r = []
make_keys (moves ∷ rest) l r =
    let l' = cycle_move l moves in
    let r' = cycle_move r moves in permutation_choose2 (join_halves l' r') ∷ make_keys rest l' r'

unfoldable pub make_key : List ℕ → List (List ℕ)
unfolding make_keys permutation_choose1
make_key in_key =
    let d = permutation_choose1 in_key in
    let l =
      (get_or d 0 0 >> 4)
      ∷ bit_or (shl8 (get_or d 0 0) 4) (get_or d 1 0 >> 4)
      ∷ bit_or (shl8 (get_or d 1 0) 4) (get_or d 2 0 >> 4)
      ∷ bit_or (shl8 (get_or d 2 0) 4) (get_or d 3 0 >> 4)
      ∷ [] in
    let r = bit_and (get_or d 3 0) 0x0f ∷ get_or d 4 0 ∷ get_or d 5 0 ∷ get_or d 6 0 ∷ [] in
    make_keys bit_displace l r

-- `out[j] = a[j] ^ b[j]` over the bytes of two arrays of one length.
unfoldable pub xor_bytes : List ℕ → List ℕ → List ℕ
xor_bytes [] ys = []
xor_bytes (x ∷ xs) [] = []
xor_bytes (x ∷ xs) (y ∷ ys) = bit_xor x y ∷ xor_bytes xs ys

-- The eight groups of six bits.
abbrev pub six_bits : List ℕ → List ℕ
six_bits o =
    (get_or o 0 0 >> 2)
    ∷ bit_or (shl8 (bit_and (get_or o 0 0) 0x03) 4) (get_or o 1 0 >> 4)
    ∷ bit_or (shl8 (bit_and (get_or o 1 0) 0x0f) 2) (get_or o 2 0 >> 6)
    ∷ bit_and (get_or o 2 0) 0x3f
    ∷ (get_or o 3 0 >> 2)
    ∷ bit_or (shl8 (bit_and (get_or o 3 0) 0x03) 4) (get_or o 4 0 >> 4)
    ∷ bit_or (shl8 (bit_and (get_or o 4 0) 0x0f) 2) (get_or o 5 0 >> 6)
    ∷ bit_and (get_or o 5 0) 0x3f
    ∷ []

-- `buf[i] = si(i, buf[i])` from index `i` on.
unfoldable pub substitute : ℕ → List ℕ → List ℕ
unfolding si
substitute i [] = []
substitute i (b ∷ buf) = si i b ∷ substitute (i + 1) buf

-- `outBuf[i] = (buf[i*2] << 4) | buf[i*2+1]`; the two last bytes of the six stay.
abbrev pub pair_up : List ℕ → List ℕ → List ℕ
pair_up buf out =
    bit_or (shl8 (get_or buf 0 0) 4) (get_or buf 1 0)
    ∷ bit_or (shl8 (get_or buf 2 0) 4) (get_or buf 3 0)
    ∷ bit_or (shl8 (get_or buf 4 0) 4) (get_or buf 5 0)
    ∷ bit_or (shl8 (get_or buf 6 0) 4) (get_or buf 7 0)
    ∷ drop 4 out

unfoldable pub encry : List ℕ → List ℕ → List ℕ
unfolding expand xor_bytes substitute permutation
encry in_data sub_key =
    let out_buf = xor_bytes (expand in_data) sub_key in
    let buf = substitute 0 (six_bits out_buf) in take 4 (permutation (pair_up buf out_buf))

pub data DesMode : Type 0 where
  dm_encry dm_decry : DesMode

-- The body of both loops of `desData`.
unfoldable pub des_round : List ℕ → List ℕ → List ℕ
des_round out sub_key =
    let temp = take 4 out in
    let right = drop 4 out in
    let out' = right ++ right in right ++ xor_bytes temp (encry out' sub_key)

unfoldable pub des_rounds : List (List ℕ) → List ℕ → List ℕ
des_rounds [] out = out
des_rounds (k ∷ keys) out = des_rounds keys (des_round out k)

-- The exchange of the halves after the loop.
unfoldable pub exchange : List ℕ → List ℕ
exchange out = drop 4 out ++ take 4 out

-- The keys in the order in which the mode's loop uses them.
unfoldable pub key_order : DesMode → List (List ℕ) → List (List ℕ)
key_order dm_encry keys = keys
key_order dm_decry keys = reverse keys

unfoldable pub des_data : DesMode → List ℕ → List (List ℕ) → List ℕ
des_data mode in_data sub_key =
    converse_permutation
      (exchange (des_rounds (key_order mode sub_key) (init_permutation (take 8 in_data))))
