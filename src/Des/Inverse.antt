-- ===== src/Des/Inverse.antt =====
-- The two outer permutations of common/des/soedes.go are inverse to one another on eight bytes.
use soelib.Common.{
  ℕ, ◌+◌, ◌<◌, List, Bool, true, ◌&&◌, ◌==◌, get_or, replicate, length, All, All-replicate,
  check_below, check_below-true, ltb, ◌≡◌, refl, sym, ap, ◌∙◌, arith,
}
use soelib.Des.Tables.{bit_ip, bit_cp}
use soelib.Des.Block.{bit_at, copy_bits, init_permutation, converse_permutation}
use soelib.Des.Copying.{
  IsByte, length-copy_bits, copy_bits-IsByte, bit_at-copy_bits, bit_at-zeros, bits_ext,
}

-- An array of eight bytes.
pub record IsBlock (xs : List ℕ) : Type 0 where
  pub size : length xs ≡ 8
  pub bytes : All IsByte xs

-- A permutation of the 64 bits by a table.
abbrev permute : List ℕ → List ℕ → List ℕ
permute table xs = copy_bits xs table 0 (replicate 8 0)

pub zeros-IsByte : (n : ℕ) → All IsByte (replicate n 0)
zeros-IsByte n = All-replicate IsByte n 0 (omega arith)

permute-IsBlock : (table xs : List ℕ) → IsBlock (permute table xs)
permute-IsBlock table xs = record {
  size = length-copy_bits xs table 0 (replicate 8 0);
  bytes = copy_bits-IsByte xs table 0 (replicate 8 0) (zeros-IsByte 8);
}

pub init_permutation-IsBlock : (xs : List ℕ) → IsBlock (init_permutation xs)
unfolding init_permutation
init_permutation-IsBlock xs = permute-IsBlock bit_ip xs

pub converse_permutation-IsBlock : (xs : List ℕ) → IsBlock (converse_permutation xs)
unfolding converse_permutation
converse_permutation-IsBlock xs = permute-IsBlock bit_cp xs

bit_at-permute :
    (table xs : List ℕ) (k : ℕ)
    → length table ≡ 64
    → k < 64
    → bit_at (permute table xs) k ≡ bit_at xs (get_or table k 0)
bit_at-permute table xs k size lt =
    let e : 0 + k ≡ k = omega arith in
    rw e at (
      bit_at-copy_bits xs table 0 (replicate 8 0) k (zeros-IsByte 8) (omega arith) (omega arith)
        (bit_at-zeros 8 (0 + k)))

-- Table `a` followed by table `b` is the identity on positions.
abbrev is_inverse : List ℕ → List ℕ → ℕ → Bool
is_inverse a b k = ltb (get_or b k 0) 64 && get_or a (get_or b k 0) 0 == k

inverse_at :
    (a b : List ℕ) (k : ℕ)
    → is_inverse a b k ≡ true
    → (get_or b k 0 < 64) × (get_or a (get_or b k 0) 0 ≡ k)
inverse_at a b k h = ground arith

permute-permute :
    (a b xs : List ℕ)
    → length a ≡ 64
    → length b ≡ 64
    → check_below 64 (is_inverse a b) ≡ true
    → IsBlock xs
    → permute b (permute a xs) ≡ xs
permute-permute a b xs la lb inv block =
    bits_ext _ xs (permuted.size ∙ sym block.size) permuted.bytes block.bytes λ k lt.
      let lt_k : k < 64 = omega (arith, permuted.size) in
      let at_k = inverse_at a b k (check_below-true 64 (is_inverse a b) k inv lt_k) in
      bit_at-permute b (permute a xs) k lb lt_k
      ∙ bit_at-permute a xs (get_or b k 0) la at_k.0
      ∙ ap (bit_at xs) at_k.1
  where
    permuted : IsBlock (permute b (permute a xs))
    permuted = permute-IsBlock b (permute a xs)

ip_then_cp : check_below 64 (is_inverse bit_ip bit_cp) ≡ true
unfolding check_below
ip_then_cp = refl

cp_then_ip : check_below 64 (is_inverse bit_cp bit_ip) ≡ true
unfolding check_below
cp_then_ip = refl

-- The final permutation undoes the initial one on every block of eight bytes.
pub converse_permutation-init_permutation :
    (xs : List ℕ) → IsBlock xs → converse_permutation (init_permutation xs) ≡ xs
unfolding init_permutation converse_permutation
converse_permutation-init_permutation xs = permute-permute bit_ip bit_cp xs refl refl ip_then_cp

pub init_permutation-converse_permutation :
    (xs : List ℕ) → IsBlock xs → init_permutation (converse_permutation xs) ≡ xs
unfolding init_permutation converse_permutation
init_permutation-converse_permutation xs = permute-permute bit_cp bit_ip xs refl refl cp_then_ip
