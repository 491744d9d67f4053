-- ===== src/Des/Copying.antt =====
-- What the permutation loops of common/des/soedes.go do to each bit.
use native.Mathlib.Decide.{ℕ_discrete}
use soelib.Common.{
  ℕ, zero, suc, ◌+◌, ◌-◌, ◌*◌, ◌/◌, ◌^◌, ◌≤◌, ◌<◌, bit_and, bit_or, ◌>>◌, has_bit, List, [], ◌∷◌,
  Bool, true, false, ◌||◌, ◌&&◌, get_or, set, replicate, length, All, All-set, All-get_or, ◌==◌,
  ◌≡◌, ◌≢◌, refl, sym, ap, ◌∙◌, arith, Bool-cases, inl, inr, bit_or-lt, zero-bit_and, bit_and-seven,
  has_bit-bit_or, byte_ext, length-set, get_or-set_self, get_or-set_ne, get_or_ext,
}
use soelib.Des.Block.{bit_at, copy_bit, copy_bits}

abbrev pub IsByte : ℕ → Type 0
IsByte b = b < 256

two-pow_lt : (k : ℕ) → k < 8 → 2 ^ k < 256
two-pow_lt zero h = omega arith
two-pow_lt (suc zero) h = omega arith
two-pow_lt (suc (suc zero)) h = omega arith
two-pow_lt (suc (suc (suc zero))) h = omega arith
two-pow_lt (suc (suc (suc (suc zero)))) h = omega arith
two-pow_lt (suc (suc (suc (suc (suc zero))))) h = omega arith
two-pow_lt (suc (suc (suc (suc (suc (suc zero)))))) h = omega arith
two-pow_lt (suc (suc (suc (suc (suc (suc (suc zero))))))) h = omega arith
two-pow_lt (suc (suc (suc (suc (suc (suc (suc (suc k)))))))) h = absurd (omega arith)

index_in : (i n : ℕ) → i < 8 * n → i / 8 < n
index_in i n h = omega arith

bit_index-lt : (i : ℕ) → 7 - bit_and i 7 < 8
bit_index-lt i = omega arith

same_byte : (i k : ℕ) → i / 8 ≡ k / 8 → (7 - bit_and i 7 == 7 - bit_and k 7) ≡ (i == k)
same_byte i k e = rw (bit_and-seven i, bit_and-seven k) (ground arith)

other_byte : (i k : ℕ) → i >> 3 ≢ k >> 3 → (i == k) ≡ false
other_byte i k ne = ground arith

-- Writing a byte of `out` with one more bit.
abbrev with_bit : ℕ → List ℕ → List ℕ
with_bit i out = set out (i >> 3) (bit_or (get_or out (i >> 3) 0) (2 ^ (7 - bit_and i 7)))

bit_at-with_bit :
    (i : ℕ) (out : List ℕ) (k : ℕ)
    → All IsByte out
    → i < 8 * length out
    → bit_at (with_bit i out) k ≡ ((i == k) || bit_at out k)
bit_at-with_bit i out k h lt = elim (ℕ_discrete (i >> 3) (k >> 3)) [
  | yes e ↦ rw (sym e) (
      rw (get_or-set_self out (i >> 3) _ 0 (index_in i _ lt)) (
        has_bit-bit_or (get_or out (i >> 3) 0) (7 - bit_and i 7) (7 - bit_and k 7)
          (All-get_or IsByte out _ 0 (omega arith) h) (bit_index-lt i) (bit_index-lt k)
        ∙ ap (λ (b : Bool). b || has_bit (get_or out (i >> 3) 0) (7 - bit_and k 7))
            (same_byte i k e)))
  | no ne ↦ rw (get_or-set_ne out (i >> 3) (k >> 3) _ 0 ne, other_byte i k ne)
]

ne_of_lt : (i k : ℕ) → k < i → (i == k) ≡ false
ne_of_lt i k h = ground arith

eq_self : (i : ℕ) → (i == i + 0) ≡ true
eq_self i = ground arith

ne_later : (i j : ℕ) → (i == i + 1 + j) ≡ false
ne_later i j = ground arith

or_false : (b : Bool) → (b || false) ≡ b
or_false b = ground arith

and_true : (b : Bool) → (b && true) ≡ b
and_true b = ground arith

and_false : (b : Bool) → (b && false) ≡ false
and_false b = ground arith

module _ (from : List ℕ) where
  pub length-copy_bit : (t i : ℕ) (out : List ℕ) → length (copy_bit from t i out) ≡ length out
  length-copy_bit t i out = elim (Bool-cases (bit_at from t)) [
    | inl e ↦ rw e (length-set out _ _)
    | inr e ↦ rw e
  ]

  pub copy_bit-IsByte :
      (t i : ℕ) (out : List ℕ) → All IsByte out → All IsByte (copy_bit from t i out)
  copy_bit-IsByte t i out h = elim (Bool-cases (bit_at from t)) [
    | inl e ↦ rw e (
        All-set IsByte out _ _
          (bit_or-lt 8 _ _ (All-get_or IsByte out _ 0 (omega arith) h)
            (two-pow_lt (7 - bit_and i 7) (omega arith)))
          h)
    | inr e ↦ rw e h
  ]

  pub length-copy_bits :
      (table : List ℕ) (i : ℕ) (out : List ℕ) → length (copy_bits from table i out) ≡ length out
  unfolding copy_bits
  length-copy_bits [] i out = refl
  length-copy_bits (t ∷ table) i out =
      length-copy_bits table (i + 1) (copy_bit from t i out) ∙ length-copy_bit t i out

  pub copy_bits-IsByte :
      (table : List ℕ) (i : ℕ) (out : List ℕ)
      → All IsByte out
      → All IsByte (copy_bits from table i out)
  unfolding copy_bits
  copy_bits-IsByte [] i out h = h
  copy_bits-IsByte (t ∷ table) i out h =
      copy_bits-IsByte table (i + 1) (copy_bit from t i out) (copy_bit-IsByte t i out h)

  -- One step sets bit `i` if the source bit is set, and leaves every other bit alone.
  bit_at-copy_bit :
      (t i : ℕ) (out : List ℕ) (k : ℕ)
      → All IsByte out
      → i < 8 * length out
      → bit_at (copy_bit from t i out) k ≡ ((i == k && bit_at from t) || bit_at out k)
  bit_at-copy_bit t i out k h lt = elim (Bool-cases (bit_at from t)) [
    | inl e ↦ rw (e, and_true) (bit_at-with_bit i out k h lt)
    | inr e ↦ rw (e, and_false)
  ]

  -- The bits below `i` are those that were there.
  pub bit_at-copy_bits_lt :
      (table : List ℕ) (i : ℕ) (out : List ℕ) (k : ℕ)
      → All IsByte out
      → i + length table ≤ 8 * length out
      → k < i
      → bit_at (copy_bits from table i out) k ≡ bit_at out k
  unfolding copy_bits
  bit_at-copy_bits_lt [] i out k h fits lt = refl
  bit_at-copy_bits_lt (t ∷ table) i out k h fits lt =
      bit_at-copy_bits_lt table (i + 1) (copy_bit from t i out) k (copy_bit-IsByte t i out h)
        (omega (arith, length-copy_bit t i out)) (omega arith)
      ∙ bit_at-copy_bit t i out k h (omega arith)
      ∙ ap (λ (b : Bool). (b && bit_at from t) || bit_at out k) (ne_of_lt i k lt)

  -- Bit `i + j` becomes the source bit that entry `j` of the table names, if it was clear.
  pub bit_at-copy_bits :
      (table : List ℕ) (i : ℕ) (out : List ℕ) (j : ℕ)
      → All IsByte out
      → i + length table ≤ 8 * length out
      → j < length table
      → bit_at out (i + j) ≡ false
      → bit_at (copy_bits from table i out) (i + j) ≡ bit_at from (get_or table j 0)
  unfolding copy_bits
  bit_at-copy_bits [] i out j h fits lt clear = absurd (omega arith)
  bit_at-copy_bits (t ∷ table) i out zero h fits lt clear =
      bit_at-copy_bits_lt table (i + 1) (copy_bit from t i out) (i + 0) (copy_bit-IsByte t i out h)
        (omega (arith, length-copy_bit t i out)) (omega arith)
      ∙ bit_at-copy_bit t i out (i + 0) h (omega arith)
      ∙ rw (clear, eq_self i) (or_false (bit_at from t))
  bit_at-copy_bits (t ∷ table) i out (suc j) h fits lt clear =
      let e : i + suc j ≡ i + 1 + j = omega arith in
      rw e (
        bit_at-copy_bits table (i + 1) (copy_bit from t i out) j (copy_bit-IsByte t i out h)
          (omega (arith, length-copy_bit t i out)) (omega arith)
          (rw (bit_at-copy_bit t i out (i + 1 + j) h (omega arith))
            (rw (ne_later i j) (rw e at clear))))

no_bits : (k : ℕ) → has_bit 0 k ≡ false
no_bits k = rw (zero-bit_and (2 ^ k))

get_or-zeros : (n k : ℕ) → get_or {A = ℕ} (replicate n 0) k 0 ≡ 0
get_or-zeros zero k = refl
get_or-zeros (suc n) zero = refl
get_or-zeros (suc n) (suc k) = get_or-zeros n k

-- A cleared array has no bit set.
pub bit_at-zeros : (n k : ℕ) → bit_at (replicate n 0) k ≡ false
bit_at-zeros n k = rw (get_or-zeros n (k >> 3)) (no_bits (7 - bit_and k 7))

bit_position :
    (i k : ℕ) → k < 8 → ((8 * i + (7 - k)) / 8 ≡ i) × (7 - bit_and (8 * i + (7 - k)) 7 ≡ k)
bit_position i k h = omega (arith, bit_and-seven (8 * i + (7 - k)))

-- Two arrays of bytes with the same bits are equal.
pub bits_ext :
    (xs ys : List ℕ)
    → length xs ≡ length ys
    → All IsByte xs
    → All IsByte ys
    → ((k : ℕ) → k < 8 * length xs → bit_at xs k ≡ bit_at ys k)
    → xs ≡ ys
bits_ext xs ys e hx hy h = get_or_ext 0 xs ys e λ i lt.
    byte_ext (get_or xs i 0) (get_or ys i 0) (All-get_or IsByte xs i 0 (omega arith) hx)
      (All-get_or IsByte ys i 0 (omega arith) hy)
      λ k lt_k.
        rw ((bit_position i k lt_k).0, (bit_position i k lt_k).1) at
          (h (8 * i + (7 - k)) (omega arith))
