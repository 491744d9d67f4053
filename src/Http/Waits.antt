-- ===== src/Http/Waits.antt =====
-- The waits between attempts of net/soehttp/soehttp.go: the power of two, its bound, and where it
-- leaves the 64 bits.
use soelib.Common.{
  ℕ, ◌+◌, ◌-◌, ◌*◌, ◌^◌, ◌%◌, ◌/◌, ◌≤◌, ◌<◌, min, some, true, false, Bool-cases, ltb, not_ltb,
  lt→ltb, ltb→lt, ◌≡◌, refl, sym, ◌∙◌, ap, inl, inr, arith,
}
use native.Mathlib.Nat.{
  mul-add, mul_left_comm, mod-add-div, mod-eq_of_lt, add-mul-mod_self_left, mod-eq-sub-mod,
}
use soelib.Http.Config.{RetryConfig, mul64, shl_one, bias, lt64}
use soelib.Http.Remote.{calculate_retry_wait}

lt64_irrefl : (w : ℕ) → lt64 w w ≡ false
lt64_irrefl w = not_ltb (bias w) (bias w) (omega arith)

-- A wait is never over the limit of the configuration, in the order of the signed words.
pub calculate_retry_wait-le :
    (c : RetryConfig) (a : ℕ) → lt64 c.retry_max_wait (calculate_retry_wait (some c) a) ≡ false
unfolding calculate_retry_wait
calculate_retry_wait-le c a =
    elim (Bool-cases (lt64 c.retry_max_wait (mul64 c.retry_wait_time (shl_one (a - 1))))) [
      | inl e ↦ rw e (lt64_irrefl c.retry_max_wait)
      | inr e ↦ rw (e, e) refl
    ]

mul_mod-mod : (b p m : ℕ) → b * (p % m) % m ≡ b * p % m
mul_mod-mod b p m =
    sym (add-mul-mod_self_left (b * (p % m)) m (b * (p / m)))
    ∙ ap (λ (x : ℕ). x % m)
        (ap (λ (x : ℕ). b * (p % m) + x) (mul_left_comm m b (p / m))
          ∙ sym (mul-add b (p % m) (m * (p / m)))
          ∙ ap (λ (x : ℕ). b * x) (mod-add-div p m))

mul64-shl_one : (b k : ℕ) → b * 2 ^ k < 2 ^ 64 → mul64 b (shl_one k) ≡ b * 2 ^ k
mul64-shl_one b k h = mul_mod-mod b (2 ^ k) (2 ^ 64) ∙ mod-eq_of_lt h

bias_small : (w : ℕ) → w < 2 ^ 63 → bias w ≡ w + 2 ^ 63
bias_small w h = mod-eq_of_lt (omega arith)

-- The waits double up to the limit, while the product is an int64: the wait before attempt `a` is
-- `RetryWaitTime * 2 ^ (a - 1)` or `RetryMaxWait`, whichever is less.
pub calculate_retry_wait-min :
    (c : RetryConfig) (a : ℕ)
    → c.retry_wait_time * 2 ^ (a - 1) < 2 ^ 63
    → c.retry_max_wait < 2 ^ 63
    → calculate_retry_wait (some c) a ≡ min (c.retry_wait_time * 2 ^ (a - 1)) c.retry_max_wait
unfolding calculate_retry_wait
calculate_retry_wait-min c a h k =
    let w = c.retry_wait_time * 2 ^ (a - 1) in
    rw
      (
        mul64-shl_one c.retry_wait_time (a - 1) (omega arith),
        bias_small w h,
        bias_small c.retry_max_wait k,
      )
      (elim (Bool-cases (ltb (c.retry_max_wait + 2 ^ 63) (w + 2 ^ 63))) [
        | inl e ↦ rw e (omega (arith, ltb→lt _ _ e))
        | inr e ↦ ground arith
      ])

-- A product from 2 ^ 63 on, and below 2 ^ 64, is a negative wait: the limit does not apply, and the
-- attempt is made at once.
pub calculate_retry_wait_negative :
    (c : RetryConfig) (a : ℕ)
    → 2 ^ 63 ≤ c.retry_wait_time * 2 ^ (a - 1)
    → c.retry_wait_time * 2 ^ (a - 1) < 2 ^ 64
    → c.retry_max_wait < 2 ^ 63
    → lt64 (calculate_retry_wait (some c) a) 0 ≡ true
unfolding calculate_retry_wait
calculate_retry_wait_negative c a l h k =
    let w = c.retry_wait_time * 2 ^ (a - 1) in
    let below_zero : bias w ≡ w - 2 ^ 63 =
      mod-eq-sub-mod (omega arith) ∙ mod-eq_of_lt (omega arith) ∙ omega arith in
    rw (mul64-shl_one c.retry_wait_time (a - 1) h, below_zero, bias_small c.retry_max_wait k)
      (rw (not_ltb (c.retry_max_wait + 2 ^ 63) (w - 2 ^ 63) (omega arith), below_zero)
        (lt→ltb (w - 2 ^ 63) (2 ^ 63) (omega arith)))
