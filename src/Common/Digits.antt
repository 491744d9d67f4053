-- ===== src/Common/Digits.antt =====
-- One equation for the lowest binary digit of each native bit operation at variables.
use Prim.Native.Nat.{
  ℕ, zero, suc, ◌+◌, ◌*◌, ◌/◌, ◌%◌, ◌≤◌, ◌<◌, min, max, bit_and, bit_or, bit_xor, digits, bitwise,
  differ, bit_and-bitwise, bit_or-bitwise, bit_xor-bitwise,
}
use mathlib.Core.Path.{◌≡◌, refl, sym, ap, ◌∙◌}
use mathlib.Core.Logic.{◌⊎◌, inl, inr}
use native.Mathlib.Omega.{arith}

split_le : (x n : ℕ) → x ≤ n → (x ≡ n) ⊎ (x < n)
split_le x n h = ground arith

-- The loop over the digits, for any operation on digits; `rest` is what it makes of the second
-- number when the first has no digits left.
module _ (rest : ℕ → ℕ) (on_digits : ℕ → ℕ → ℕ) where
  -- One round more than the first number needs changes nothing.
  digits-suc :
      (rounds x y : ℕ)
      → x ≤ rounds
      → digits rest on_digits (suc rounds) x y ≡ digits rest on_digits rounds x y
  digits-suc zero zero y h = refl
  digits-suc (suc rounds) zero y h = refl
  digits-suc zero (suc x) y h = absurd (omega arith)
  digits-suc (suc rounds) (suc x) y h =
      ap (λ (d : ℕ). d * 2 + on_digits (suc x % 2) (y % 2))
        (digits-suc rounds (suc x / 2) (y / 2) (omega arith))

  enough_rounds :
      (rounds x y : ℕ) → x ≤ rounds → digits rest on_digits rounds x y ≡ bitwise rest on_digits x y
  enough_rounds zero zero y h = refl
  enough_rounds zero (suc x) y h = absurd (omega arith)
  enough_rounds (suc rounds) x y h = elim (split_le x (suc rounds) h) [
    | inl e ↦ ap (λ (n : ℕ). digits rest on_digits n x y) (sym e)
    | inr l ↦ digits-suc rounds x y (omega arith) ∙ enough_rounds rounds x y (omega arith)
  ]

  bitwise-next :
      (x y : ℕ)
      → bitwise rest on_digits (suc x) y
        ≡ bitwise rest on_digits (suc x / 2) (y / 2) * 2 + on_digits (suc x % 2) (y % 2)
  bitwise-next x y =
      ap (λ (d : ℕ). d * 2 + on_digits (suc x % 2) (y % 2))
        (enough_rounds x (suc x / 2) (y / 2) (omega arith))

pub bit_xor_step : (x y : ℕ) → bit_xor x y ≡ bit_xor (x / 2) (y / 2) * 2 + differ (x % 2) (y % 2)
bit_xor_step zero y = simp bit_xor-bitwise (omega arith)
bit_xor_step (suc x) y = simp bit_xor-bitwise (bitwise-next (λ t. t) differ x y)

pub bit_or_step : (x y : ℕ) → bit_or x y ≡ bit_or (x / 2) (y / 2) * 2 + max (x % 2) (y % 2)
bit_or_step zero y = simp bit_or-bitwise (omega arith)
bit_or_step (suc x) y = simp bit_or-bitwise (bitwise-next (λ t. t) max x y)

pub bit_and_step : (x y : ℕ) → bit_and x y ≡ bit_and (x / 2) (y / 2) * 2 + min (x % 2) (y % 2)
bit_and_step zero y = simp bit_and-bitwise (omega arith)
bit_and_step (suc x) y = simp bit_and-bitwise (bitwise-next (λ t. 0) min x y)
