-- ===== src/Utils/Numbers.antt =====
-- Helpers of common/utils/util.go: conversion to other bases and back, pages, and removal of
-- duplicates. A text is the list of its characters' codes; an int that can leave its range is a word
-- of 64 bits. The size of a page is not negative.
use soelib.Common.{
  ℕ, zero, suc, ◌+◌, ◌-◌, ◌*◌, ◌/◌, ◌%◌, ◌^◌, List, [], ◌∷◌, Option, none, some, Bool, true, false,
  not, ◌&&◌, ltb, ◌==◌, if◌then◌else◌, length,
}
use soelib.Common.Int.{ℤ, pos, negsuc, sub_ℕ}
use soelib.Common.Text.{String, text_eq}

-- The texts of the digits; the two errors return the number as it is.
pub data Conversion : Type 0 where
  converted : List ℕ → Conversion
  not_positive : ℤ → Conversion
  other_base : ℤ → Conversion

-- The map `h`
abbrev pub x_digit : ℕ → ℕ
x_digit d = if ltb d 10 then 48 + d else 55 + d

-- The loop over `n /= num`, on fuel; as many rounds as the number says are enough.
abbrev pub convert_loop : ℕ → ℕ → ℕ → List ℕ → List ℕ
convert_loop zero num n result = result
convert_loop (suc fuel) num n result =
    let rest = convert_loop fuel num (n / num) (x_digit (n % num) ∷ result) in
    if n == 0 then result else rest

unfoldable pub dec_convert_to_x : ℤ → ℕ → Conversion
dec_convert_to_x (negsuc n) num = not_positive (negsuc n)
dec_convert_to_x (pos n) num =
    if not (num == 2) && not (num == 8) && not (num == 16)
    then other_base (pos n)
    else converted (convert_loop n num n [])

-- The stack: the characters, the last one first.
abbrev pub pushed : List ℕ → List ℕ → List ℕ
pushed [] stack = stack
pushed (c ∷ cs) stack = pushed cs (c ∷ stack)

-- `int(v-48)` on words.
abbrev pub digit_word : ℕ → ℕ
digit_word v = (v + (2 ^ 64 - 48)) % 2 ^ 64

abbrev pub pop_loop : List ℕ → ℕ → ℕ → ℕ
pop_loop [] stnum ten = ten
pop_loop (v ∷ stack) stnum ten =
    pop_loop stack (suc stnum) ((ten + digit_word v * 2 ^ stnum) % 2 ^ 64)

unfoldable pub ten_to_two : List ℕ → ℕ
ten_to_two two = pop_loop (pushed two []) 0 0

-- `count`, `totalPage`, `startIndex` and `endIndex`; none is the panic of a division by zero.
pub record Page : Type 0 where
  pub item_count : ℕ
  pub total_page : ℕ
  pub start_index : ℤ
  pub end_index : ℤ

abbrev pub total_pages : ℕ → ℕ → ℕ
total_pages page_size count =
    if count % page_size == 0 then count / page_size else count / page_size + 1

-- `(page - 1) * pageSize`, and with a page more.
abbrev pub page_start : ℤ → ℕ → ℤ
page_start (pos p) page_size = sub_ℕ (p * page_size) page_size
page_start (negsuc n) page_size = sub_ℕ 0 ((n + 2) * page_size)

abbrev pub page_end : ℤ → ℕ → ℕ → ℤ
page_end (pos p) page_size count =
    if ltb count (p * page_size) then pos count else pos (p * page_size)
page_end (negsuc n) page_size count = sub_ℕ 0 ((n + 1) * page_size)

unfoldable pub get_page_dto {ℓ} : {A : Type ℓ} → ℤ → ℕ → List A → Option Page
get_page_dto page zero i = none
get_page_dto page (suc s) i =
    let count = length i in
    some (record {
      item_count = count;
      total_page = total_pages (suc s) count;
      start_index = page_start page (suc s);
      end_index = page_end page (suc s) count;
    })

abbrev pub seen_key : String → List String → Bool
seen_key k [] = false
seen_key k (x ∷ xs) = let rest = seen_key k xs in if text_eq.beq k x then true else rest

-- The loop over the items, with the keys of `temp`; `key` is `fmt.Sprint`.
abbrev pub removal_loop {ℓ} : {A : Type ℓ} → (A → String) → List String → List A → List A
removal_loop key temp [] = []
removal_loop key temp (item ∷ slice) =
    let old = seen_key (key item) temp in
    let rest = removal_loop key (if old then temp else key item ∷ temp) slice in
    if old then rest else item ∷ rest

unfoldable pub list_duplicate_removal {ℓ} : {A : Type ℓ} → (A → String) → List A → List A
list_duplicate_removal key originals = removal_loop key [] originals
