-- ===== src/Des/Feistel.antt =====
-- The rounds of `desData` in common/des/soedes.go: each undoes itself between exchanges of the
-- halves, so that decryption of a block undoes its encryption.
use mathlib.Core.List.{reverse, reverse-cons}
use soelib.Common.{
  ℕ, suc, List, [], ◌∷◌, ◌++◌, take, drop, replicate, length, All, All-append, All-take, All-drop,
  take-append_eq, drop-append_eq, length-append, length-take, length-drop, take-append-drop,
  take_of_le, bit_xor_cancel, bit_xor-lt, ◌≡◌, refl, sym, ap, ap₂, ◌∙◌, arith,
}
use soelib.Des.Tables.{bit_pm}
use soelib.Des.Block.{
  copy_bits, init_permutation, converse_permutation, xor_bytes, encry, expand, six_bits, pair_up,
  substitute, des_round, des_rounds, exchange, key_order, des_data, DesMode, dm_encry, dm_decry,
}
use soelib.Des.Copying.{IsByte, length-copy_bits, copy_bits-IsByte}
use soelib.Des.Inverse.{
  IsBlock, zeros-IsByte, init_permutation-IsBlock, converse_permutation-IsBlock,
  converse_permutation-init_permutation, init_permutation-converse_permutation,
}

length-xor_bytes : (xs ys : List ℕ) → length xs ≡ length ys → length (xor_bytes xs ys) ≡ length xs
unfolding xor_bytes
length-xor_bytes [] ys e = refl
length-xor_bytes (x ∷ xs) [] e = absurd (omega arith)
length-xor_bytes (x ∷ xs) (y ∷ ys) e = ap suc (length-xor_bytes xs ys (omega arith))

xor_bytes_cancel : (xs ys : List ℕ) → length xs ≡ length ys → xor_bytes (xor_bytes xs ys) ys ≡ xs
unfolding xor_bytes
xor_bytes_cancel [] ys e = refl
xor_bytes_cancel (x ∷ xs) [] e = absurd (omega arith)
xor_bytes_cancel (x ∷ xs) (y ∷ ys) e =
    ap₂ ◌∷◌ (bit_xor_cancel x y) (xor_bytes_cancel xs ys (omega arith))

xor_bytes-IsByte : (xs ys : List ℕ) → All IsByte xs → All IsByte ys → All IsByte (xor_bytes xs ys)
unfolding xor_bytes
xor_bytes-IsByte [] ys hx hy = tt
xor_bytes-IsByte (x ∷ xs) [] hx hy = tt
xor_bytes-IsByte (x ∷ xs) (y ∷ ys) hx hy =
    (bit_xor-lt 8 x y hx.0 hy.0, xor_bytes-IsByte xs ys hx.1 hy.1)

-- The round function yields four bytes, whatever it is given.
encry-four :
    (in_data key : List ℕ) → (length (encry in_data key) ≡ 4) × All IsByte (encry in_data key)
unfolding encry
encry-four in_data key =
    let out = xor_bytes (expand in_data) key in
    let from = pair_up (substitute 0 (six_bits out)) out in
    let e =
      take-append_eq 4 (copy_bits from bit_pm 0 (replicate 4 0)) (drop 4 from)
        (length-copy_bits from bit_pm 0 (replicate 4 0)) in
    rw e (
      length-copy_bits from bit_pm 0 (replicate 4 0),
      copy_bits-IsByte from bit_pm 0 (replicate 4 0) (zeros-IsByte 4),
    )

module _ (l r : List ℕ) (four_l : length l ≡ 4) (four_r : length r ≡ 4) where
  abbrev mixed : List ℕ → List ℕ
  mixed key = xor_bytes l (encry (r ++ r) key)

  des_round_halves : (key : List ℕ) → des_round (l ++ r) key ≡ r ++ mixed key
  unfolding des_round
  des_round_halves key = rw (take-append_eq 4 l r four_l, drop-append_eq 4 l r four_l)

  exchange_halves : exchange (l ++ r) ≡ r ++ l
  unfolding exchange
  exchange_halves = rw (take-append_eq 4 l r four_l, drop-append_eq 4 l r four_l)

  length-mixed : (key : List ℕ) → length (mixed key) ≡ 4
  length-mixed key =
      length-xor_bytes l (encry (r ++ r) key) (four_l ∙ sym (encry-four (r ++ r) key).0) ∙ four_l

-- After an exchange of the halves, the same round again gives the exchanged halves back.
des_round-exchange_halves :
    (l r key : List ℕ)
    → length l ≡ 4
    → length r ≡ 4
    → des_round (exchange (des_round (l ++ r) key)) key ≡ exchange (l ++ r)
des_round-exchange_halves l r key hl hr =
    let m = mixed l r hl hr key in
    let hm : length m ≡ 4 = length-mixed l r hl hr key in
    ap (λ (o : List ℕ). des_round (exchange o) key) (des_round_halves l r hl hr key)
    ∙ ap (λ (o : List ℕ). des_round o key) (exchange_halves r m hr hm)
    ∙ des_round_halves m r hm hr key
    ∙ ap (λ (x : List ℕ). r ++ x)
        (xor_bytes_cancel l (encry (r ++ r) key) (hl ∙ sym (encry-four (r ++ r) key).0))
    ∙ sym (exchange_halves l r hl hr)

-- Eight bytes are two halves of four.
record Halves (out : List ℕ) : Type 0 where
  left : length (take 4 out) ≡ 4
  right : length (drop 4 out) ≡ 4
  whole : take 4 out ++ drop 4 out ≡ out

halves : (out : List ℕ) → length out ≡ 8 → Halves out
halves out e = record {
  left = omega (arith, length-take 4 out);
  right = omega (arith, length-drop 4 out);
  whole = take-append-drop 4 out;
}

des_round-exchange :
    (out key : List ℕ)
    → length out ≡ 8
    → des_round (exchange (des_round out key)) key ≡ exchange out
des_round-exchange out key size =
    let h = halves out size in
    rw h.whole at (des_round-exchange_halves (take 4 out) (drop 4 out) key h.left h.right)

des_round-IsBlock : (out key : List ℕ) → IsBlock out → IsBlock (des_round out key)
unfolding des_round
des_round-IsBlock out key block =
    let h = halves out block.size in
    let l = take 4 out in
    let r = drop 4 out in
    let f = encry-four (r ++ r) key in
    record {
      size = omega (
        arith,
        length-append r (xor_bytes l (encry (r ++ r) key)),
        length-mixed l r h.left h.right key,
        h.right,
      );
      bytes =
          All-append IsByte r _ (All-drop IsByte 4 out block.bytes)
            (xor_bytes-IsByte l _ (All-take IsByte 4 out block.bytes) f.1);
    }

exchange-IsBlock : (out : List ℕ) → IsBlock out → IsBlock (exchange out)
unfolding exchange
exchange-IsBlock out block =
    let h = halves out block.size in
    record {
      size = omega (arith, length-append (drop 4 out) (take 4 out), h.left, h.right);
      bytes =
          All-append IsByte (drop 4 out) _ (All-drop IsByte 4 out block.bytes)
            (All-take IsByte 4 out block.bytes);
    }

exchange-exchange : (out : List ℕ) → length out ≡ 8 → exchange (exchange out) ≡ out
exchange-exchange out size =
    let h = halves out size in
    let l = take 4 out in
    let r = drop 4 out in
    rw h.whole at
      (ap exchange (exchange_halves l r h.left h.right) ∙ exchange_halves r l h.right h.left)

des_rounds-IsBlock :
    (keys : List (List ℕ)) (out : List ℕ) → IsBlock out → IsBlock (des_rounds keys out)
unfolding des_rounds
des_rounds-IsBlock [] out block = block
des_rounds-IsBlock (k ∷ keys) out block =
    des_rounds-IsBlock keys (des_round out k) (des_round-IsBlock out k block)

des_rounds-append :
    (ks js : List (List ℕ)) (out : List ℕ)
    → des_rounds (ks ++ js) out ≡ des_rounds js (des_rounds ks out)
unfolding des_rounds
des_rounds-append [] js out = refl
des_rounds-append (k ∷ ks) js out = des_rounds-append ks js (des_round out k)

des_rounds-one : (k out : List ℕ) → des_rounds (k ∷ []) out ≡ des_round out k
unfolding des_rounds
des_rounds-one k out = refl

-- The rounds with the keys in the opposite order undo the rounds.
des_rounds-reverse :
    (keys : List (List ℕ)) (out : List ℕ)
    → IsBlock out
    → des_rounds (reverse keys) (exchange (des_rounds keys out)) ≡ exchange out
unfolding des_rounds
des_rounds-reverse [] out block = refl
des_rounds-reverse (k ∷ keys) out block =
    let next = des_round out k in
    ap (λ (ks : List (List ℕ)). des_rounds ks (exchange (des_rounds keys next)))
      (reverse-cons k keys)
    ∙ des_rounds-append (reverse keys) (k ∷ []) (exchange (des_rounds keys next))
    ∙ des_rounds-one k _
    ∙ ap (λ (o : List ℕ). des_round o k)
        (des_rounds-reverse keys next (des_round-IsBlock out k block))
    ∙ des_round-exchange out k block.size

pub des_data-IsBlock :
    (mode : DesMode) (xs : List ℕ) (keys : List (List ℕ)) → IsBlock (des_data mode xs keys)
unfolding des_data
des_data-IsBlock mode xs keys = converse_permutation-IsBlock _

-- Decryption of a block under any sub-keys undoes its encryption under the same.
pub des_data_decry-encry :
    (xs : List ℕ) (keys : List (List ℕ))
    → IsBlock xs
    → des_data dm_decry (des_data dm_encry xs keys) keys ≡ xs
unfolding des_data key_order
des_data_decry-encry xs keys block =
    ap undo (take_of_le 8 (converse_permutation y) (omega (arith, y'.size)))
    ∙ ap (λ (o : List ℕ). converse_permutation (exchange (des_rounds (reverse keys) o)))
        (init_permutation-converse_permutation y
          (exchange-IsBlock _ (des_rounds-IsBlock keys _ start)))
    ∙ ap (λ (o : List ℕ). converse_permutation (exchange o))
        (des_rounds-reverse keys (init_permutation (take 8 xs)) start)
    ∙ ap converse_permutation (exchange-exchange (init_permutation (take 8 xs)) start.size)
    ∙ ap (λ (o : List ℕ). converse_permutation (init_permutation o))
        (take_of_le 8 xs (omega (arith, block.size)))
    ∙ converse_permutation-init_permutation xs block
  where
    start : IsBlock (init_permutation (take 8 xs))
    start = init_permutation-IsBlock (take 8 xs)

    y : List ℕ
    y = exchange (des_rounds keys (init_permutation (take 8 xs)))

    y' : IsBlock (converse_permutation y)
    y' = converse_permutation-IsBlock y

    undo : List ℕ → List ℕ
    undo o = converse_permutation (exchange (des_rounds (reverse keys) (init_permutation o)))
