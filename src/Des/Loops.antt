-- ===== src/Des/Loops.antt =====
-- The loops of `EncryStr` and `DecryStr` in common/des/soedes.go: padding, trimming, and the
-- blocks one after another.
use soelib.Common.{
  ℕ, zero, suc, ◌+◌, ◌-◌, ◌*◌, ◌%◌, ◌≤◌, List, [], ◌∷◌, ◌++◌, true, false, ◌&&◌, ltb, ◌==◌, length,
  take, drop, All, All-append, All-take, All-drop, length-append, length-take, length-drop,
  take-append_eq, drop-append_eq, take-append-drop, get_or-append_length, Bool-cases, inl, inr, ◌≡◌,
  refl, sym, ap, ap₂, ◌∙◌, arith,
}
use soelib.Des.Block.{DesMode, dm_encry, dm_decry, des_data}
use soelib.Des.Copying.{IsByte}
use soelib.Des.Feistel.{des_data-IsBlock, des_data_decry-encry}
use soelib.Des.Power.{ends_in_zero, pad_zeros, crypt_blocks, trim_zeros}

-- `k` zero bytes after a text.
abbrev pub zeros_after : List ℕ → ℕ → List ℕ
zeros_after xs zero = xs
zeros_after xs (suc k) = zeros_after xs k ++ 0 ∷ []

zeros_after_shift : (xs : List ℕ) (k : ℕ) → zeros_after (xs ++ 0 ∷ []) k ≡ zeros_after xs (suc k)
zeros_after_shift xs zero = refl
zeros_after_shift xs (suc k) = ap (λ (t : List ℕ). t ++ 0 ∷ []) (zeros_after_shift xs k)

pub length-zeros_after : (xs : List ℕ) (k : ℕ) → length (zeros_after xs k) ≡ length xs + k
length-zeros_after xs zero = omega arith
length-zeros_after xs (suc k) =
    omega (arith, length-append (zeros_after xs k) (0 ∷ []), length-zeros_after xs k)

pub zeros_after-IsByte : (xs : List ℕ) (k : ℕ) → All IsByte xs → All IsByte (zeros_after xs k)
zeros_after-IsByte xs zero h = h
zeros_after-IsByte xs (suc k) h =
    All-append IsByte (zeros_after xs k) (0 ∷ []) (zeros_after-IsByte xs k h) (omega arith, tt)

-- The zero bytes that make a length a multiple of eight.
abbrev pub missing : ℕ → ℕ
missing n = (8 - n % 8) % 8

missing_next : (n : ℕ) → (n % 8 == 0) ≡ false → missing n ≡ suc (missing (n + 1))
missing_next n h = ground arith

missing_none : (n : ℕ) → (n % 8 == 0) ≡ true → missing n ≡ 0
missing_none n h = ground arith

-- The padding loop adds what is missing, if it has rounds enough.
pub pad_zeros-eq :
    (rounds : ℕ) (buff : List ℕ)
    → missing (length buff) ≤ rounds
    → pad_zeros rounds buff ≡ zeros_after buff (missing (length buff))
unfolding pad_zeros
pad_zeros-eq zero buff h =
    ap (zeros_after buff) (let e : 0 ≡ missing (length buff) = omega arith in e)
pad_zeros-eq (suc rounds) buff h = elim (Bool-cases (length buff % 8 == 0)) [
  | inl done ↦ rw done (sym (ap (zeros_after buff) (missing_none (length buff) done)))
  | inr more ↦ rw more (
      pad_zeros-eq rounds (buff ++ 0 ∷ []) (omega (arith, shorter more, longer))
      ∙ ap (λ n. zeros_after (buff ++ 0 ∷ []) (missing n)) longer
      ∙ zeros_after_shift buff (missing (length buff + 1))
      ∙ sym (ap (zeros_after buff) (shorter more)))
]
  where
    longer : length (buff ++ 0 ∷ []) ≡ length buff + 1
    longer = length-append buff (0 ∷ [])

    shorter :
        (length buff % 8 == 0) ≡ false → missing (length buff) ≡ suc (missing (length buff + 1))
    shorter = missing_next (length buff)

last_index : (xs : List ℕ) → length (xs ++ 0 ∷ []) - 1 ≡ length xs
last_index xs = omega (arith, length-append xs (0 ∷ []))

positive : (xs : List ℕ) → (ltb 0 (length (xs ++ 0 ∷ [])) && 0 == 0) ≡ true
positive xs = ground (arith, length-append xs (0 ∷ []))

ends_in_zero-snoc : (xs : List ℕ) → ends_in_zero (xs ++ 0 ∷ []) ≡ true
ends_in_zero-snoc xs = rw (last_index xs, get_or-append_length xs 0 [] 0) (positive xs)

drop_last : (xs : List ℕ) → take (length (xs ++ 0 ∷ []) - 1) (xs ++ 0 ∷ []) ≡ xs
drop_last xs = rw (last_index xs) (take-append_eq (length xs) xs (0 ∷ []) refl)

-- The trimming loop takes off exactly the added zeros.
pub trim_zeros-zeros_after :
    (k rounds : ℕ) (xs : List ℕ)
    → ends_in_zero xs ≡ false
    → k ≤ rounds
    → trim_zeros rounds (zeros_after xs k) ≡ xs
unfolding trim_zeros
trim_zeros-zeros_after zero zero xs clean h = refl
trim_zeros-zeros_after zero (suc rounds) xs clean h = rw clean
trim_zeros-zeros_after (suc k) zero xs clean h = absurd (omega arith)
trim_zeros-zeros_after (suc k) (suc rounds) xs clean h = rw (ends_in_zero-snoc (zeros_after xs k)) (
    ap (trim_zeros rounds) (drop_last (zeros_after xs k))
    ∙ trim_zeros-zeros_after k rounds xs clean (omega arith))

pub length-crypt_blocks :
    (mode : DesMode) (keys : List (List ℕ)) (n : ℕ) (buff : List ℕ)
    → length (crypt_blocks mode keys n buff) ≡ 8 * n
unfolding crypt_blocks
length-crypt_blocks mode keys zero buff = refl
length-crypt_blocks mode keys (suc n) buff = omega (
  arith,
  length-append (des_data mode (take 8 buff) keys) (crypt_blocks mode keys n (drop 8 buff)),
  (des_data-IsBlock mode (take 8 buff) keys).size,
  length-crypt_blocks mode keys n (drop 8 buff),
)

pub crypt_blocks-IsByte :
    (mode : DesMode) (keys : List (List ℕ)) (n : ℕ) (buff : List ℕ)
    → All IsByte (crypt_blocks mode keys n buff)
unfolding crypt_blocks
crypt_blocks-IsByte mode keys zero buff = tt
crypt_blocks-IsByte mode keys (suc n) buff =
    All-append IsByte (des_data mode (take 8 buff) keys) _
      (des_data-IsBlock mode (take 8 buff) keys).bytes
      (crypt_blocks-IsByte mode keys n (drop 8 buff))

-- Decrypting the blocks of a text undoes encrypting them.
pub crypt_blocks_decry-encry :
    (keys : List (List ℕ)) (n : ℕ) (buff : List ℕ)
    → length buff ≡ 8 * n
    → All IsByte buff
    → crypt_blocks dm_decry keys n (crypt_blocks dm_encry keys n buff) ≡ buff
unfolding crypt_blocks
crypt_blocks_decry-encry keys zero [] size bytes = refl
crypt_blocks_decry-encry keys zero (x ∷ xs) size bytes = absurd (omega arith)
crypt_blocks_decry-encry keys (suc n) buff size bytes =
    let block = des_data dm_encry (take 8 buff) keys in
    let rest = crypt_blocks dm_encry keys n (drop 8 buff) in
    let eight = (des_data-IsBlock dm_encry (take 8 buff) keys).size in
    ap₂ (λ (b : List ℕ) (r : List ℕ). des_data dm_decry b keys ++ crypt_blocks dm_decry keys n r)
      (take-append_eq 8 block rest eight) (drop-append_eq 8 block rest eight)
    ∙ ap₂ ◌++◌
        (des_data_decry-encry (take 8 buff) keys (record {
          size = omega (arith, length-take 8 buff);
          bytes = All-take IsByte 8 buff bytes;
        }))
        (crypt_blocks_decry-encry keys n (drop 8 buff) (omega (arith, length-drop 8 buff))
          (All-drop IsByte 8 buff bytes))
    ∙ take-append-drop 8 buff
