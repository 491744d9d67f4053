-- ===== src/Utils/WordBits.antt =====
-- One bit of a word: what it is after `w & (1 << k)` and `w | (1 << k)`, at every width.
use native.Mathlib.Nat.{mul_assoc, pow-suc}
use soelib.Common.Digits.{bit_and_step, bit_or_step}
use soelib.Common.{
  ℕ, zero, suc, ◌+◌, ◌*◌, ◌/◌, ◌%◌, ◌^◌, ◌≤◌, min, max, bit_and, bit_or, bit_and-zero, has_bit, ◌<◌,
  Bool-cases, inl, inr, true, not, if◌then◌else◌, ◌==◌, ◌≡◌, refl, ap, ap₂, ◌∙◌, sym, arith,
}

-- The digit of `w` at place `k`.
abbrev pub digit_at : ℕ → ℕ → ℕ
digit_at w zero = w % 2
digit_at w (suc k) = digit_at (w / 2) k

pub bit_or_zero : (fuel x : ℕ) → x ≤ fuel → bit_or x 0 ≡ x
bit_or_zero zero zero h = refl
bit_or_zero zero (suc x) h = absurd (omega arith)
bit_or_zero (suc fuel) x h = bit_or_step x 0 ∙ omega (arith, bit_or_zero fuel (x / 2) (omega arith))

half_pow : (k : ℕ) → 2 ^ suc k / 2 ≡ 2 ^ k
half_pow k = ap (λ (x : ℕ). x / 2) (pow-suc 2 k) ∙ omega arith

even_pow : (k : ℕ) → 2 ^ suc k % 2 ≡ 0
even_pow k = ap (λ (x : ℕ). x % 2) (pow-suc 2 k) ∙ omega arith

drop_zero : (x m : ℕ) → x + min m 0 ≡ x
drop_zero x m = omega arith

times_pow : (d k : ℕ) → d * 2 ^ k * 2 ≡ d * 2 ^ suc k
times_pow d k = mul_assoc d (2 ^ k) 2 ∙ ap (λ (x : ℕ). d * x) (sym (pow-suc 2 k))

pub bit_and-pow : (w k : ℕ) → bit_and w (2 ^ k) ≡ digit_at w k * 2 ^ k
bit_and-pow w zero = bit_and_step w 1 ∙ omega (arith, bit_and-zero (w / 2))
bit_and-pow w (suc k) =
    bit_and_step w (2 ^ suc k)
    ∙ ap₂ (λ (p : ℕ) (r : ℕ). bit_and (w / 2) p * 2 + min (w % 2) r) (half_pow k) (even_pow k)
    ∙ ap (λ (t : ℕ). t * 2 + min (w % 2) 0) (bit_and-pow (w / 2) k)
    ∙ drop_zero (digit_at (w / 2) k * 2 ^ k * 2) (w % 2)
    ∙ times_pow (digit_at (w / 2) k) k

bit_or_one : (w : ℕ) → bit_or w 1 ≡ w / 2 * 2 + 1
bit_or_one w = bit_or_step w 1 ∙ omega (arith, bit_or_zero (w / 2) (w / 2) (omega arith))

bit_or_pow : (w j : ℕ) → bit_or w (2 ^ suc j) ≡ bit_or (w / 2) (2 ^ j) * 2 + w % 2
bit_or_pow w j =
    bit_or_step w (2 ^ suc j)
    ∙ ap₂ (λ (p : ℕ) (r : ℕ). bit_or (w / 2) p * 2 + max (w % 2) r) (half_pow j) (even_pow j)
    ∙ omega arith

pub digit_at-bit_or :
    (w j k : ℕ) → digit_at (bit_or w (2 ^ j)) k ≡ (if j == k then 1 else digit_at w k)
digit_at-bit_or w zero zero = omega (arith, bit_or_one w)
digit_at-bit_or w zero (suc k) =
    let e : bit_or w 1 / 2 ≡ w / 2 = omega (arith, bit_or_one w) in
    ap (λ (x : ℕ). digit_at x k) e ∙ ground arith
digit_at-bit_or w (suc j) zero = grind (arith, bit_or_pow w j)
digit_at-bit_or w (suc j) (suc k) =
    let e : bit_or w (2 ^ suc j) / 2 ≡ bit_or (w / 2) (2 ^ j) = omega (arith, bit_or_pow w j) in
    ap (λ (x : ℕ). digit_at x k) e ∙ digit_at-bit_or (w / 2) j k ∙ ground arith

pub digit_at-le : (w k : ℕ) → digit_at w k ≤ 1
digit_at-le w zero = omega arith
digit_at-le w (suc k) = digit_at-le (w / 2) k

pow-pos : (k : ℕ) → 0 < 2 ^ k
pow-pos zero = omega arith
pow-pos (suc k) = omega (arith, pow-suc 2 k, pow-pos k)

one_of : (d p : ℕ) → d ≤ 1 → 0 < p → not (d * p == 0) ≡ (d == 1)
one_of zero p h pos = ground arith
one_of (suc zero) p h pos = ground arith
one_of (suc (suc d)) p h pos = absurd (omega arith)

has_bit-digit_at : (w k : ℕ) → has_bit w k ≡ (digit_at w k == 1)
has_bit-digit_at w k =
    ap (λ (x : ℕ). not (x == 0)) (bit_and-pow w k)
    ∙ one_of (digit_at w k) (2 ^ k) (digit_at-le w k) (pow-pos k)

-- Setting a bit of a word changes that bit alone.
pub has_bit-bit_or_word :
    (w j k : ℕ) → has_bit (bit_or w (2 ^ j)) k ≡ (if j == k then true else has_bit w k)
has_bit-bit_or_word w j k =
    has_bit-digit_at (bit_or w (2 ^ j)) k
    ∙ ap (λ (x : ℕ). x == 1) (digit_at-bit_or w j k)
    ∙ elim (Bool-cases (j == k)) [ inl e ↦ rw e refl | inr e ↦ rw (e, has_bit-digit_at w k) refl ]
