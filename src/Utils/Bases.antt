-- ===== src/Utils/Bases.antt =====
-- A number that common/utils/util.go writes in base two is read back.
use native.Mathlib.Nat.{add-mul, mul_assoc, mul_comm, mod-eq_of_lt, mod-add-div', pow-suc}
use soelib.Common.{
  ℕ, zero, suc, ◌+◌, ◌*◌, ◌/◌, ◌%◌, ◌^◌, ◌≤◌, ◌<◌, List, [], ◌∷◌, ◌==◌, ==_iff, if◌then◌else◌,
  Bool-cases, ◌≡◌, refl, sym, ap, ◌∙◌, inl, inr, arith,
}
use soelib.Common.Int.{pos}
use soelib.Utils.Numbers.{
  converted, x_digit, convert_loop, dec_convert_to_x, pushed, digit_word, pop_loop, ten_to_two,
}

-- The digits, the last first, before other ones.
abbrev bits : ℕ → ℕ → List ℕ → List ℕ
bits zero n stack = stack
bits (suc fuel) n stack =
    let rest = bits fuel (n / 2) stack in if n == 0 then stack else x_digit (n % 2) ∷ rest

convert_loop-bits :
    (fuel n : ℕ) (acc stack : List ℕ)
    → pushed (convert_loop fuel 2 n acc) stack ≡ pushed acc (bits fuel n stack)
convert_loop-bits zero n acc stack = refl
convert_loop-bits (suc fuel) n acc stack =
    let rest = convert_loop-bits fuel (n / 2) (x_digit (n % 2) ∷ acc) stack in
    elim (Bool-cases (n == 0)) [ inl e ↦ rw e refl | inr e ↦ rw e rest ]

digit_word-x_digit : (b : ℕ) → b < 2 → digit_word (x_digit b) ≡ b
digit_word-x_digit zero h = refl
digit_word-x_digit (suc zero) h = refl
digit_word-x_digit (suc (suc b)) h = absurd (omega arith)

halves : (n k : ℕ) → n % 2 * 2 ^ k + n / 2 * 2 ^ suc k ≡ n * 2 ^ k
halves n k =
    let p = 2 ^ k in
    ap (λ (x : ℕ). n % 2 * p + n / 2 * x) (pow-suc 2 k ∙ mul_comm p 2)
    ∙ ap (λ (x : ℕ). n % 2 * p + x) (sym (mul_assoc (n / 2) 2 p))
    ∙ sym (add-mul (n % 2) (n / 2 * 2) p)
    ∙ ap (λ (x : ℕ). x * p) (mod-add-div' n 2)

no_term : (n k t : ℕ) → n ≡ 0 → t ≡ t + n * 2 ^ k
no_term n k t z = rw z (omega arith)

fits : (t a b c : ℕ) → a + b ≡ c → t + c < 2 ^ 64 → t + a < 2 ^ 64
fits t a b c e h = omega arith

joined : (t a b c : ℕ) → a + b ≡ c → t + c < 2 ^ 64 → t + a + b < 2 ^ 64
joined t a b c e h = omega arith

regroup : (t a b c : ℕ) → a + b ≡ c → t + a + b ≡ t + c
regroup t a b c e = omega arith

pop_loop-bits :
    (fuel n k t : ℕ)
    → n ≤ fuel
    → t + n * 2 ^ k < 2 ^ 64
    → pop_loop (bits fuel n []) k t ≡ t + n * 2 ^ k
pop_loop-bits zero n k t f h = no_term n k t (omega arith)
pop_loop-bits (suc fuel) n k t f h = elim (Bool-cases (n == 0)) [
  | inl e ↦ rw e (no_term n k t ((==_iff n 0).0 e))
  | inr e ↦
      let term = n % 2 * 2 ^ k in
      let next = n / 2 * 2 ^ suc k in
      let sum : term + next ≡ n * 2 ^ k = halves n k in
      let read : (t + digit_word (x_digit (n % 2)) * 2 ^ k) % 2 ^ 64 ≡ t + term =
        ap (λ (x : ℕ). (t + x * 2 ^ k) % 2 ^ 64) (digit_word-x_digit (n % 2) (omega arith))
        ∙ mod-eq_of_lt (fits t term next (n * 2 ^ k) sum h) in
      let smaller : n / 2 ≤ fuel = omega (arith, f) in
      let rest =
        pop_loop-bits fuel (n / 2) (suc k) (t + term) smaller
          (joined t term next (n * 2 ^ k) sum h) in
      rw e (
        ap (pop_loop (bits fuel (n / 2) []) (suc k)) read
        ∙ rest
        ∙ regroup t term next (n * 2 ^ k) sum)
]

-- What is written in base two is read back as it was, if it is an int64 that is not negative.
pub ten_to_two-dec_convert_to_x :
    (n : ℕ)
    → n < 2 ^ 63
    → (cs : List ℕ) × (dec_convert_to_x (pos n) 2 ≡ converted cs) × (ten_to_two cs ≡ n)
unfolding dec_convert_to_x ten_to_two
ten_to_two-dec_convert_to_x n h = (
  convert_loop n 2 n [],
  refl,
  ap (λ (cs : List ℕ). pop_loop cs 0 0) (convert_loop-bits n n [] [])
      ∙ pop_loop-bits n n 0 0 (omega arith) (omega arith)
      ∙ omega arith,
)
