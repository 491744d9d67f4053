-- ===== src/Common/Bits.antt =====
-- The native bit operations at variables: one equation for the lowest digit of each, and what
-- follows from them.
use Prim.Native.Nat.{ℕ, zero, suc, ◌+◌, ◌*◌, ◌/◌, ◌%◌, ◌^◌, ◌≤◌, ◌<◌}
use Prim.Native.Nat.{bit_and, bit_or, bit_xor, differ}
use Prim.Native.Nat.{bit_and-bitwise}
use mathlib.Core.Path.{◌≡◌, refl, sym, ◌∙◌}
use mathlib.Core.Bool.{Bool, true, false, ◌&&◌, ◌||◌, not}
use native.Mathlib.Nat.{pow-suc}
use native.Mathlib.Omega.{arith}
use soelib.Common.Digits.{bit_and_step, bit_or_step, bit_xor_step}
use soelib.Common.Tests.{◌==◌, ==_iff}

differ_lt : (x y : ℕ) → x < 2 → y < 2 → differ x y < 2
differ_lt zero y p q = q
differ_lt (suc x) zero p q = p
differ_lt (suc zero) (suc zero) p q = omega arith
differ_lt (suc (suc x)) (suc y) p q = absurd (omega arith)
differ_lt (suc zero) (suc (suc y)) p q = absurd (omega arith)

differ_cancel : (x y : ℕ) → x < 2 → y < 2 → differ (differ x y) y ≡ x
differ_cancel zero zero p q = refl
differ_cancel zero (suc zero) p q = refl
differ_cancel (suc zero) zero p q = refl
differ_cancel (suc zero) (suc zero) p q = refl
differ_cancel (suc (suc x)) y p q = absurd (omega arith)
differ_cancel zero (suc (suc y)) p q = absurd (omega arith)
differ_cancel (suc zero) (suc (suc y)) p q = absurd (omega arith)

-- The two parts of an exclusive or: all digits but the lowest, and the lowest.
bit_xor_halves :
    (a b : ℕ)
    → (bit_xor a b / 2 ≡ bit_xor (a / 2) (b / 2)) × (bit_xor a b % 2 ≡ differ (a % 2) (b % 2))
bit_xor_halves a b =
    omega (arith, bit_xor_step a b, differ_lt (a % 2) (b % 2) (omega arith) (omega arith))

bit_xor_cancel_fuel : (n a b : ℕ) → a + b ≤ n → bit_xor (bit_xor a b) b ≡ a
bit_xor_cancel_fuel zero zero zero h = refl
bit_xor_cancel_fuel zero (suc a) b h = absurd (omega arith)
bit_xor_cancel_fuel zero zero (suc b) h = absurd (omega arith)
bit_xor_cancel_fuel (suc n) zero zero h = refl
bit_xor_cancel_fuel (suc n) a b h = rw (bit_xor_step (bit_xor a b) b) (
    rw ((bit_xor_halves a b).0, (bit_xor_halves a b).1)
      (omega (
        arith,
        differ_cancel (a % 2) (b % 2) (omega arith) (omega arith),
        bit_xor_cancel_fuel n (a / 2) (b / 2) (omega arith),
      )))

-- An exclusive or with the same number twice gives the first number back, at every width.
pub bit_xor_cancel : (a b : ℕ) → bit_xor (bit_xor a b) b ≡ a
bit_xor_cancel a b = bit_xor_cancel_fuel (a + b) a b (omega arith)

zero-bit_xor : (a b : ℕ) → a < 1 → b < 1 → bit_xor a b ≡ 0
zero-bit_xor zero zero p q = refl
zero-bit_xor zero (suc b) p q = absurd (omega arith)
zero-bit_xor (suc a) b p q = absurd (omega arith)

zero-bit_or : (a b : ℕ) → a < 1 → b < 1 → bit_or a b ≡ 0
zero-bit_or zero zero p q = refl
zero-bit_or zero (suc b) p q = absurd (omega arith)
zero-bit_or (suc a) b p q = absurd (omega arith)

pub bit_xor-lt : (k a b : ℕ) → a < 2 ^ k → b < 2 ^ k → bit_xor a b < 2 ^ k
bit_xor-lt zero a b p q = omega (arith, zero-bit_xor a b p q)
bit_xor-lt (suc k) a b p q = omega (
  arith,
  bit_xor_step a b,
  differ_lt (a % 2) (b % 2) (omega arith) (omega arith),
  pow-suc 2 k,
  bit_xor-lt k (a / 2) (b / 2) (omega (arith, pow-suc 2 k)) (omega (arith, pow-suc 2 k)),
)

pub bit_or-lt : (k a b : ℕ) → a < 2 ^ k → b < 2 ^ k → bit_or a b < 2 ^ k
bit_or-lt zero a b p q = omega (arith, zero-bit_or a b p q)
bit_or-lt (suc k) a b p q = omega (
  arith,
  bit_or_step a b,
  pow-suc 2 k,
  bit_or-lt k (a / 2) (b / 2) (omega (arith, pow-suc 2 k)) (omega (arith, pow-suc 2 k)),
)

-- Over a small range, every value is checked by evaluation.
unfoldable pub check_below : ℕ → (ℕ → Bool) → Bool
check_below zero test = true
check_below (suc bound) test = test bound && check_below bound test

pub check_below-true :
    (bound : ℕ) (test : ℕ → Bool) (v : ℕ)
    → check_below bound test ≡ true
    → v < bound
    → test v ≡ true
unfolding check_below
check_below-true zero test v passed small = absurd (omega arith)
check_below-true (suc bound) test v passed small = ground (arith, check_below-true bound test v)

pub zero-bit_and : (b : ℕ) → bit_and 0 b ≡ 0
zero-bit_and b = bit_and-bitwise 0 b

bit_and-zero_rounds : (rounds x : ℕ) → x ≤ rounds → bit_and x 0 ≡ 0
bit_and-zero_rounds rounds zero small = refl
bit_and-zero_rounds zero (suc x) small = absurd (omega arith)
bit_and-zero_rounds (suc rounds) (suc x) small =
    let halved = bit_and-zero_rounds rounds (suc x / 2) (omega arith) in
    omega (arith, bit_and_step (suc x) 0, halved)

pub bit_and-zero : (x : ℕ) → bit_and x 0 ≡ 0
bit_and-zero x = bit_and-zero_rounds x x (omega arith)

bit_and-one : (x : ℕ) → bit_and x 1 ≡ x % 2
bit_and-one x = omega (arith, bit_and_step x 1, bit_and-zero (x / 2))

bit_and-three : (a : ℕ) → bit_and a 3 ≡ a % 4
bit_and-three a = omega (arith, bit_and_step a 3, bit_and-one (a / 2))

-- `x & 7` is `x % 8`.
pub bit_and-seven : (a : ℕ) → bit_and a 7 ≡ a % 8
bit_and-seven a = omega (arith, bit_and_step a 7, bit_and-three (a / 2))

-- Bit `k` of a byte, as `b & (1 << k) != 0` reads it.
abbrev pub has_bit : ℕ → ℕ → Bool
has_bit b k = not (bit_and b (2 ^ k) == 0)

abbrev bool_eq : Bool → Bool → Bool
bool_eq true b = b
bool_eq false b = not b

bool_eq_sound : (a b : Bool) → bool_eq a b ≡ true → a ≡ b
bool_eq_sound a b h = ground arith

abbrev same_bits : ℕ → ℕ → ℕ → Bool
same_bits b j k = bool_eq (has_bit (bit_or b (2 ^ j)) k) (j == k || has_bit b k)

-- Setting a bit of a byte changes that bit alone: 256 * 8 * 8 cases.
set_bit_table :
    check_below 256 (λ b. check_below 8 (λ j. check_below 8 (λ k. same_bits b j k))) ≡ true
unfolding check_below
set_bit_table = refl

pub has_bit-bit_or :
    (b j k : ℕ) → b < 256 → j < 8 → k < 8 → has_bit (bit_or b (2 ^ j)) k ≡ (j == k || has_bit b k)
has_bit-bit_or b j k hb hj hk = bool_eq_sound _ _ (
    check_below-true 8 (λ k. same_bits b j k) k
      (check_below-true 8 (λ j. check_below 8 (λ k. same_bits b j k)) j
        (check_below-true 256 _ b set_bit_table hb) hj)
      hk)

abbrev digit : Bool → ℕ
digit true = 1
digit false = 0

-- The byte with the given bits.
abbrev of_bits : (ℕ → Bool) → ℕ
of_bits p =
    digit (p 0)
    + digit (p 1) * 2
    + digit (p 2) * 4
    + digit (p 3) * 8
    + digit (p 4) * 16
    + digit (p 5) * 32
    + digit (p 6) * 64
    + digit (p 7) * 128

of_bits_table : check_below 256 (λ b. of_bits (has_bit b) == b) ≡ true
unfolding check_below
of_bits_table = refl

of_bits-has_bit : (b : ℕ) → b < 256 → of_bits (has_bit b) ≡ b
of_bits-has_bit b h =
    (==_iff _ b).0 (check_below-true 256 (λ b. of_bits (has_bit b) == b) b of_bits_table h)

of_bits_ext : (p q : ℕ → Bool) → ((k : ℕ) → k < 8 → p k ≡ q k) → of_bits p ≡ of_bits q
of_bits_ext p q h =
    rw
      (
        h 0 (omega arith),
        h 1 (omega arith),
        h 2 (omega arith),
        h 3 (omega arith),
        h 4 (omega arith),
        h 5 (omega arith),
        h 6 (omega arith),
        h 7 (omega arith),
      )
      refl

-- Two bytes with the same bits are equal.
pub byte_ext : (a b : ℕ) → a < 256 → b < 256 → ((k : ℕ) → k < 8 → has_bit a k ≡ has_bit b k) → a ≡ b
byte_ext a b ha hb h =
    sym (of_bits-has_bit a ha) ∙ of_bits_ext (has_bit a) (has_bit b) h ∙ of_bits-has_bit b hb
