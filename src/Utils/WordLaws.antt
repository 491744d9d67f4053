-- ===== src/Utils/WordLaws.antt =====
-- Membership and size in the bitmap of words of common/utils/bitmap.go.
use soelib.Common.{
  ℕ, zero, suc, ◌-◌, ◌/◌, ◌%◌, ◌^◌, ◌<◌, bit_and, bit_or, has_bit, zero-bit_and, bit_and-zero, List,
  [], ◌∷◌, ◌++◌, some, Bool, true, false, not, ◌&&◌, ltb, ◌==◌, ==_iff, if◌then◌else◌, Bool-cases,
  length, get_or, set, replicate, length-append, length-replicate, get_or-set_self, get_or-set_ne,
  ◌≡◌, refl, sym, ap, ◌∙◌, inl, inr, arith,
}
use mathlib.Core.Option as Option
use soelib.Common.Int.{pos, negsuc}
use soelib.Utils.WordBits.{has_bit-bit_or_word, bit_or_zero}
use soelib.Utils.WordBitmap.{WordBitmap, has, add, add_mask, grown}

get_or-replicate : (n j : ℕ) → get_or {A = ℕ} (replicate n 0) j 0 ≡ 0
get_or-replicate zero j = refl
get_or-replicate (suc n) zero = refl
get_or-replicate (suc n) (suc j) = get_or-replicate n j

get_or-append_zeros : (ws : List ℕ) (n j : ℕ) → get_or (ws ++ replicate n 0) j 0 ≡ get_or ws j 0
get_or-append_zeros [] n j = get_or-replicate n j
get_or-append_zeros (w ∷ ws) n zero = refl
get_or-append_zeros (w ∷ ws) n (suc j) = get_or-append_zeros ws n j

-- A number is in a bitmap: beyond its words there is a word of 0.
abbrev member : List ℕ → ℕ → Bool
member ws n = has_bit (get_or ws (n / 64) 0) (n % 64)

get_or_beyond : (ws : List ℕ) (j : ℕ) → ltb j (length ws) ≡ false → get_or ws j 0 ≡ 0
get_or_beyond [] j h = refl
get_or_beyond (w ∷ ws) zero h = absurd (ground arith)
get_or_beyond (w ∷ ws) (suc j) h = get_or_beyond ws j (ground arith)

has-member : (b : WordBitmap) (n : ℕ) → has b (pos n) ≡ some (member b.words n)
unfolding has
has-member b n = ap some (elim (Bool-cases (ltb (n / 64) (length b.words))) [
  | inl e ↦ rw e refl
  | inr e ↦ rw (e, get_or_beyond b.words (n / 64) e, zero-bit_and (2 ^ (n % 64))) refl
])

member-grown : (ws : List ℕ) (w n : ℕ) → member (grown ws w) n ≡ member ws n
member-grown ws w n =
    ap (λ (x : ℕ). has_bit x (n % 64)) (get_or-append_zeros ws (suc w - length ws) (n / 64))

below_grown : (ws : List ℕ) (w : ℕ) → w < length (grown ws w)
below_grown ws w = omega (
  arith,
  length-append ws (replicate (suc w - length ws) 0),
  length-replicate {A = ℕ} (suc w - length ws) 0,
)

set_self :
    (g : List ℕ) (n : ℕ) (v : ℕ)
    → n / 64 < length g
    → (m : ℕ) → (n / 64 == m / 64) ≡ true
    → member (set g (n / 64) v) m ≡ has_bit v (m % 64)
set_self g n v h m e =
    let same = (==_iff (n / 64) (m / 64)).0 e in
    ap (λ (x : ℕ). has_bit (get_or (set g (n / 64) v) x 0) (m % 64)) (sym same)
    ∙ ap (λ (x : ℕ). has_bit x (m % 64)) (get_or-set_self g (n / 64) v 0 h)

set_ne :
    (g : List ℕ) (n v m : ℕ) → (n / 64 == m / 64) ≡ false → member (set g (n / 64) v) m ≡ member g m
set_ne g n v m e =
    ap (λ (x : ℕ). has_bit x (m % 64))
      (get_or-set_ne g (n / 64) (m / 64) v 0 (λ s. absurd (ground (arith, e, s))))

-- The word of a number with its bit set.
abbrev with_bit : List ℕ → ℕ → List ℕ
with_bit g n = set g (n / 64) (bit_or (get_or g (n / 64) 0) (2 ^ (n % 64)))

same_number : (n m : ℕ) → (n / 64 == m / 64) ≡ true → (n % 64 == m % 64) ≡ (n == m)
same_number n m e = ground arith

other_number : (n m : ℕ) → (n / 64 == m / 64) ≡ false → (n == m) ≡ false
other_number n m e = ground arith

member-with_bit :
    (g : List ℕ) (n m : ℕ)
    → n / 64 < length g
    → member (with_bit g n) m ≡ (if n == m then true else member g m)
member-with_bit g n m h = elim (Bool-cases (n / 64 == m / 64)) [
  | inl e ↦
      set_self g n _ h m e
      ∙ has_bit-bit_or_word (get_or g (n / 64) 0) (n % 64) (m % 64)
      ∙ rw (same_number n m e) (
          ap (λ (x : ℕ). if n == m then true else has_bit (get_or g x 0) (m % 64))
            ((==_iff (n / 64) (m / 64)).0 e))
  | inr e ↦ set_ne g n _ m e ∙ rw (other_number n m e) refl
]

-- What the addition of a number makes of a bitmap: the number is in it, the others are as before, and
-- the size has grown by one exactly if the number was not in it.
abbrev pub Added : WordBitmap → ℕ → WordBitmap → Type 0
Added b n c =
    ((m : ℕ) → has c (pos m) ≡ (if n == m then some true else has b (pos m)))
    × (some c.size ≡ Option.map (λ t. if t then b.size else suc b.size) (has b (pos n)))

some_if : (t : Bool) (y : Bool) → some (if t then true else y) ≡ (if t then some true else some y)
some_if true y = refl
some_if false y = refl

known : (t : Bool) (y : Bool) → (t ≡ true → y ≡ true) → y ≡ (if t then true else y)
known true y h = h refl
known false y h = refl

has-of :
    (b c : WordBitmap) (n m : ℕ)
    → member c.words m ≡ (if n == m then true else member b.words m)
    → has c (pos m) ≡ (if n == m then some true else has b (pos m))
has-of b c n m e =
    has-member c m
    ∙ ap some e
    ∙ some_if (n == m) (member b.words m)
    ∙ ap (λ o. if n == m then some true else o) (sym (has-member b m))

size-of :
    (b : WordBitmap) (n : ℕ) (t : Bool)
    → member b.words n ≡ t
    → some (if t then b.size else suc b.size)
      ≡ Option.map (λ x. if x then b.size else suc b.size) (has b (pos n))
size-of b n t e =
    ap (λ (x : Bool). some (if x then b.size else suc b.size)) (sym e)
    ∙ ap (Option.map (λ x. if x then b.size else suc b.size)) (sym (has-member b n))

add_mask-Added :
    (b : WordBitmap) (n : ℕ)
    → Added b n (add_mask b (grown b.words (n / 64)) (n / 64) (2 ^ (n % 64)))
add_mask-Added b n =
    let w = n / 64 in
    let g = grown b.words w in
    elim (Bool-cases (bit_and (get_or g w 0) (2 ^ (n % 64)) == 0)) [
      | inl e ↦
          let out : member b.words n ≡ false = sym (member-grown b.words w n) ∙ ap not e in
          rw e (
            λ m. has-of b _ n m (
                member-with_bit g n m (below_grown b.words w)
                ∙ ap (λ x. if n == m then true else x) (member-grown b.words w m)),
            size-of b n false out,
          )
      | inr e ↦
          let here : member b.words n ≡ true = sym (member-grown b.words w n) ∙ ap not e in
          rw e (
            λ m. has-of b _ n m (
                member-grown b.words w m
                ∙ known (n == m) (member b.words m)
                    (λ s. ap (member b.words) (sym ((==_iff n m).0 s)) ∙ here)),
            size-of b n true here,
          )
    ]

-- A number that is not negative can be added to every bitmap, and tested in it: neither is a panic.
-- After the addition the number is in the bitmap, the others are as before, and the size has grown by
-- one exactly if the number was not in it.
pub add-Added : (b : WordBitmap) (n : ℕ) → (c : WordBitmap) × (add b (pos n) ≡ some c) × Added b n c
unfolding add
add-Added b n = (_, refl, add_mask-Added b n)

set_first : (g : List ℕ) (v : ℕ) → v ≡ get_or g 0 0 → set g 0 v ≡ g
set_first [] v e = refl
set_first (x ∷ xs) v e = ap (λ (y : ℕ). y ∷ xs) e

and_false : (t : Bool) → t && false ≡ false
and_false true = refl
and_false false = refl

-- A number from -63 to -1 is in no bitmap, and adding it changes no membership but counts every time.
pub add-negative :
    (b : WordBitmap) (k : ℕ)
    → suc k < 64
    → (has b (negsuc k) ≡ some false)
      × (c : WordBitmap) × (add b (negsuc k) ≡ some c)
      × (c.size ≡ suc b.size)
      × (has c (negsuc k) ≡ some false)
      × ((m : ℕ) → has c (pos m) ≡ has b (pos m))
unfolding add has
add-negative b k h =
    let small : (suc k / 64 == 0) ≡ true = ground arith in
    let rest : (suc k % 64 == 0) ≡ false = ground arith in
    let g = grown b.words 0 in
    let x = get_or g 0 0 in
    let c : WordBitmap = record { words = set g 0 (bit_or x 0); size = suc b.size } in
    (
      rw (small, rest, bit_and-zero (get_or b.words 0 0))
          (ap some (and_false (ltb 0 (length b.words)))),
      c,
      rw (small, rest, bit_and-zero x) refl,
      refl,
      rw (small, rest, bit_and-zero (get_or c.words 0 0))
          (ap some (and_false (ltb 0 (length c.words)))),
      λ m.
          has-member c m
          ∙ ap (λ (ws : List ℕ). some (member ws m))
              (set_first g (bit_or x 0) (bit_or_zero x x (omega arith)))
          ∙ ap some (member-grown b.words 0 m)
          ∙ sym (has-member b m),
    )
