-- ===== src/Utils/Pages.antt =====
-- The pages of a list that `GetPageDTO` of common/utils/util.go cuts.
use native.Mathlib.Nat.{mod-add-div', mod-lt, add-mul, suc-mul}
use mathlib.Core.Option.{some-ne-none, some-injective}
use soelib.Common.{
  leb, ◌&&◌, true, ℕ, zero, suc, ◌+◌, ◌-◌, ◌*◌, ◌/◌, ◌%◌, ◌≤◌, ◌<◌, List, [], ◌∷◌, ◌++◌, Option,
  none, some, ltb, ◌==◌, ==_iff, if◌then◌else◌, Bool-cases, ◌≡◌, refl, sym, ap, ap₂, ◌∙◌, inl, inr,
  arith, length, take, drop, length-drop, take_of_le, ltb→lt,
}
use soelib.Common.Int.{ℤ, pos, sub_ℕ, sub_ℕ-add}
use soelib.Utils.Numbers.{Page, get_page_dto, total_pages}

-- `i[start:end]` of a slice with no room behind its items; none is the panic of a bound out of range.
abbrev pub slice {ℓ} : {A : Type ℓ} → List A → ℤ → ℤ → Option (List A)
slice i (pos a) (pos b) =
    if leb a b && leb b (length i) then some (take (b - a) (drop a i)) else none
slice i _ _ = none

abbrev pub page_slice {ℓ} : {A : Type ℓ} → List A → Option Page → Option (List A)
page_slice i none = none
page_slice i (some p) = slice i p.start_index p.end_index

abbrev both {ℓ} : {A : Type ℓ} → Option (List A) → Option (List A) → Option (List A)
both (some a) (some b) = some (a ++ b)
both _ _ = none

-- The first pages, one after the other, or none if cutting one of them panics.
abbrev pub pages {ℓ} : {A : Type ℓ} → ℕ → ℕ → List A → Option (List A)
pages size zero i = some []
pages size (suc n) i = both (pages size n i) (page_slice i (get_page_dto (pos (suc n)) size i))

module _ {ℓ} {A : Type ℓ} where
  take_nil : (b : ℕ) → take {A = A} b [] ≡ []
  take_nil zero = refl
  take_nil (suc b) = refl

  take_more : (a b : ℕ) (xs : List A) → take (a + b) xs ≡ take a xs ++ take b (drop a xs)
  take_more zero b xs = let same : 0 + b ≡ b = omega arith in ap (λ (n : ℕ). take n xs) same
  take_more (suc a) b [] = take_nil (suc a + b) ∙ sym (take_nil b)
  take_more (suc a) b (x ∷ xs) =
      let same : suc a + b ≡ suc (a + b) = omega arith in
      ap (λ (n : ℕ). take n (x ∷ xs)) same ∙ ap (λ (t : List A). x ∷ t) (take_more a b xs)

  take_cut : (a b : ℕ) (xs : List A) → length xs ≤ a → length xs ≤ b → take a xs ≡ take b xs
  take_cut a b xs h k = take_of_le a xs h ∙ sym (take_of_le b xs k)

  inside : (a b : ℕ) (xs : List A) → a ≤ b → b ≤ length xs → leb a b && leb b (length xs) ≡ true
  inside a b xs h k = ground arith

  slice_cut :
      (m size : ℕ) (xs : List A)
      → m < length xs
      → slice xs
          (sub_ℕ (m + size) size)
          (if ltb (length xs) (m + size) then pos (length xs) else pos (m + size))
        ≡ some (take size (drop m xs))
  slice_cut m size xs h = rw (sub_ℕ-add m size) (elim (Bool-cases (ltb (length xs) (m + size))) [
    | inl e ↦
        let short : length xs < m + size = ltb→lt (length xs) (m + size) e in
        let left = length-drop m xs in
        rw (e, inside m (length xs) xs (omega arith) (omega arith))
          (ap some (
            take_cut (length xs - m) size (drop m xs) (omega (arith, left))
              (omega (arith, left, short))))
    | inr e ↦
        let size_back : m + size - m ≡ size = omega arith in
        let fits : m + size ≤ length xs = ground (arith, e) in
        rw (e, inside m (m + size) xs (omega arith) fits, size_back) refl
  ])

  page-take :
      (s n : ℕ) (xs : List A)
      → n * suc s < length xs
      → page_slice xs (get_page_dto (pos (suc n)) (suc s) xs)
        ≡ some (take (suc s) (drop (n * suc s) xs))
  unfolding get_page_dto
  page-take s n xs h = rw (suc-mul n (suc s)) (slice_cut (n * suc s) (suc s) xs h)

  pages-take :
      (s n : ℕ) (xs : List A)
      → n * suc s < length xs + suc s
      → pages (suc s) n xs ≡ some (take (n * suc s) xs)
  pages-take s zero xs h =
      let none_yet : 0 * suc s ≡ 0 = omega arith in ap (λ (k : ℕ). some (take k xs)) (sym none_yet)
  pages-take s (suc n) xs h =
      let more = suc-mul n (suc s) in
      ap₂ both (pages-take s n xs (omega (arith, more, h)))
        (page-take s n xs (omega (arith, more, h)))
      ∙ ap some (sym (take_more (n * suc s) (suc s) xs) ∙ ap (λ (k : ℕ). take k xs) (sym more))

-- The last page is the one with the last item.
total_pages-tight :
    (s count : ℕ)
    → (count ≤ total_pages (suc s) count * suc s)
      × (total_pages (suc s) count * suc s < count + suc s)
total_pages-tight s count =
    let split = mod-add-div' count (suc s) in
    elim (Bool-cases (count % suc s == 0)) [
      | inl e ↦
          let e0 = (==_iff (count % suc s) 0).0 e in
          rw e (omega (arith, split, e0), omega (arith, split, e0))
      | inr e ↦
          let bound : count % suc s < suc s = mod-lt count (omega arith) in
          let some_left : 0 < count % suc s = ground (arith, e) in
          let next = add-mul (count / suc s) 1 (suc s) in
          rw e (omega (arith, split, bound, next), omega (arith, split, some_left, next))
    ]

-- If `GetPageDTO` does not panic, the slices of the pages from the first to the last one that it counts
-- can be cut without a panic and are the list, one after the other, and there is no page too many: the
-- last page has an item.
pub pages-get_page_dto {ℓ} :
    {A : Type ℓ} (page : ℤ) (page_size : ℕ) (i : List A) (p : Page)
    → get_page_dto page page_size i ≡ some p
    → (pages page_size p.total_page i ≡ some i) × (p.total_page * page_size < length i + page_size)
unfolding get_page_dto
pages-get_page_dto page zero i p h = absurd (some-ne-none p (sym h))
pages-get_page_dto page (suc s) i p h =
    let counted : total_pages (suc s) (length i) ≡ p.total_page =
      ap (λ (q : Page). q.total_page) (some-injective _ _ h) in
    let tight = total_pages-tight s (length i) in
    rw (sym counted) (
      pages-take s (total_pages (suc s) (length i)) i tight.1
          ∙ ap some (take_of_le (total_pages (suc s) (length i) * suc s) i tight.0),
      tight.1,
    )
