-- ===== src/Bitmap/Bytes.antt =====
-- What common/bitmap does to one byte, checked at every byte.
use soelib.Common.{
  ℕ, ◌+◌, ◌<◌, Bool, true, if◌then◌else◌, ◌==◌, ==_iff, check_below, check_below-true, ◌≡◌, refl,
}
use soelib.Bitmap.Bits.{cleared, raised, bit_of, cost_count}

-- The tests at byte `b`, changed bit `j` and read bit `k`.
abbrev raised_at : ℕ → ℕ → ℕ → Bool
raised_at b j k = bit_of (raised b j) k == (if j == k then 1 else bit_of b k)

abbrev cleared_at : ℕ → ℕ → ℕ → Bool
cleared_at b j k = bit_of (cleared b j) k == (if j == k then 0 else bit_of b k)

abbrev everywhere : (ℕ → ℕ → ℕ → Bool) → ℕ → Bool
everywhere test b = check_below 8 (λ j. check_below 8 (λ k. test b j k))

everywhere-true :
    (test : ℕ → ℕ → ℕ → Bool)
    → check_below 256 (everywhere test) ≡ true
    → (b j k : ℕ) → b < 256
    → j < 8
    → k < 8
    → test b j k ≡ true
everywhere-true test h b j k hb hj hk =
    check_below-true 8 (λ k. test b j k) k
      (check_below-true 8 (λ j. check_below 8 (λ k. test b j k)) j
        (check_below-true 256 (everywhere test) b h hb) hj)
      hk

raised_table : check_below 256 (everywhere raised_at) ≡ true
unfolding check_below
raised_table = refl

cleared_table : check_below 256 (everywhere cleared_at) ≡ true
unfolding check_below
cleared_table = refl

pub bit_of-raised :
    (b j k : ℕ)
    → b < 256
    → j < 8
    → k < 8
    → bit_of (raised b j) k ≡ (if j == k then 1 else bit_of b k)
bit_of-raised b j k hb hj hk =
    (==_iff _ _).0 (everywhere-true raised_at raised_table b j k hb hj hk)

pub bit_of-cleared :
    (b j k : ℕ)
    → b < 256
    → j < 8
    → k < 8
    → bit_of (cleared b j) k ≡ (if j == k then 0 else bit_of b k)
bit_of-cleared b j k hb hj hk =
    (==_iff _ _).0 (everywhere-true cleared_at cleared_table b j k hb hj hk)

-- The bits of a byte that are 1.
abbrev pub ones : ℕ → ℕ
ones b =
    bit_of b 0
    + bit_of b 1
    + bit_of b 2
    + bit_of b 3
    + bit_of b 4
    + bit_of b 5
    + bit_of b 6
    + bit_of b 7

cost_table : check_below 256 (λ b. cost_count b == ones b) ≡ true
unfolding check_below cost_count
cost_table = refl

pub cost_count-ones : (b : ℕ) → b < 256 → cost_count b ≡ ones b
cost_count-ones b h =
    (==_iff _ _).0 (check_below-true 256 (λ b. cost_count b == ones b) b cost_table h)
