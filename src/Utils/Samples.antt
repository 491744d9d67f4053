-- ===== src/Utils/Samples.antt =====
-- Runs of common/utils: a signature of three parameters, the hours of a night, and lists.
use soelib.Common.{
  ◌+◌, length, ◌*◌, ℕ, ◌<◌, List, [], ◌∷◌, Bool, true, if◌then◌else◌, ◌≡◌, ◌⊎◌, ◌↔◌, ◌≤◌, some,
  refl, sym, ◌∙◌, inl, inr, arith, Bool-cases, false, none, suc,
}
use soelib.Common.Text.{String, text_eq}
use soelib.Utils.Sign.{less, order_param}
use soelib.Common.Int.{pos, negsuc}
use soelib.Utils.Hours.{Moment, at, instant, is_match_time, get_bussiness_date_time, time_sub_days}
use soelib.Utils.HoursLaws.{get_bussiness_date_time-is_match_time}
use soelib.Utils.Numbers.{Page, get_page_dto, converted, dec_convert_to_x, list_duplicate_removal}
use soelib.Utils.Pages.{pages, pages-get_page_dto}
use soelib.Utils.WordBitmap.{WordBitmap, new_bitmap, has, add}
use soelib.Utils.WordLaws.{Added, add-Added, add-negative}
use soelib.Utils.SignLaws.{occurrences, SameKeys, Ordered}

-- An insertion sort stands for `sort.Slice`, and no text has capitals.
abbrev insert : (String → String → Bool) → String → List String → List String
insert lt x [] = x ∷ []
insert lt x (y ∷ ys) = let rest = insert lt x ys in if lt y x then y ∷ rest else x ∷ y ∷ ys

abbrev insertion_sort : (String → String → Bool) → List String → List String
insertion_sort lt [] = []
insertion_sort lt (x ∷ xs) = insert lt x (insertion_sort lt xs)

abbrev same : String → String
same s = s

signed_once :
    order_param same insertion_sort ("b" ∷ "a" ∷ "sign" ∷ []) (λ k. "1") "&key=s" ≡ "a=1&b=1&key=s"
unfolding order_param
signed_once = refl

swap-SameKeys : (a b : String) → SameKeys (a ∷ b ∷ []) (b ∷ a ∷ [])
swap-SameKeys a b k = elim (Bool-cases (text_eq.beq k a)) [
  | inl e ↦ elim (Bool-cases (text_eq.beq k b)) [ inl f ↦ rw (e, f) refl | inr f ↦ rw (e, f) refl ]
  | inr e ↦ elim (Bool-cases (text_eq.beq k b)) [ inl f ↦ rw (e, f) refl | inr f ↦ rw (e, f) refl ]
]

one_of_two : (k : String) → 0 < occurrences k ("b" ∷ "a" ∷ []) → (k ≡ "a") ⊎ (k ≡ "b")
one_of_two k h = elim (Bool-cases (text_eq.beq k "b")) [
  | inl e ↦ inr ((text_eq.beq_iff k "b").0 e)
  | inr e ↦ elim (Bool-cases (text_eq.beq k "a")) [
    | inl f ↦ inl ((text_eq.beq_iff k "a").0 f)
    | inr f ↦ absurd (omega (arith, rw (e, f) at h))
  ]
]

two-Ordered : Ordered (less same) ("b" ∷ "a" ∷ [])
two-Ordered a b ca cb ne = elim (one_of_two a ca) [
  | inl p ↦ elim (one_of_two b cb) [
    | inl q ↦ absurd (ne (p ∙ sym q))
    | inr q ↦ inl (rw (p, q) refl)
  ]
  | inr p ↦ elim (one_of_two b cb) [
    | inl q ↦ inr (rw (p, q) refl)
    | inr q ↦ absurd (ne (p ∙ sym q))
  ]
]

-- One in the night, with hours from 18:00 to 02:00.
abbrev night : Moment
night = at 100 3600

get_bussiness_date_time-is_match_time_example :
    (is_match_time (some night) (some 64800) (some 7200) ≡ true)
    ↔ ((instant (at 99 64800) ≤ instant night) × (instant night ≤ instant (at 100 7200)))
unfolding get_bussiness_date_time
get_bussiness_date_time-is_match_time_example =
    get_bussiness_date_time-is_match_time night 64800 7200 (omega arith) (omega arith) (omega arith)
      (omega arith)

two_days_for_one : time_sub_days (at 101 7200) (at 100 3600) ≡ pos 2
unfolding time_sub_days
two_days_for_one = refl

ten_in_two : dec_convert_to_x (pos 10) 2 ≡ converted (49 ∷ 48 ∷ 49 ∷ 48 ∷ [])
unfolding dec_convert_to_x
ten_in_two = refl

abbrev letters : List String
letters = "a" ∷ "b" ∷ "a" ∷ "c" ∷ "b" ∷ []

letters_once : list_duplicate_removal same letters ≡ "a" ∷ "b" ∷ "c" ∷ []
unfolding list_duplicate_removal
letters_once = refl

abbrev first_page : Page
first_page = record { item_count = 5; total_page = 3; start_index = pos 0; end_index = pos 2 }

first_page_run : get_page_dto (pos 1) 2 letters ≡ some first_page
unfolding get_page_dto
first_page_run = refl

pages-get_page_dto_example : (pages 2 3 letters ≡ some letters) × (3 * 2 < length letters + 2)
pages-get_page_dto_example = pages-get_page_dto (pos 1) 2 letters first_page first_page_run

-- Characters of two, three and one bytes.
abbrev three : List (List ℕ)
three = (195 ∷ 169 ∷ []) ∷ (230 ∷ 188 ∷ 162 ∷ []) ∷ (97 ∷ []) ∷ []

-- A number of the second word in an empty bitmap of words, and a negative one.
add-Added_example : (c : WordBitmap) × (add new_bitmap (pos 65) ≡ some c) × Added new_bitmap 65 c
add-Added_example = add-Added new_bitmap 65

minus_five : 5 < 64
minus_five = omega arith

add-negative_example :
    (has new_bitmap (negsuc 4) ≡ some false)
    × (c : WordBitmap) × (add new_bitmap (negsuc 4) ≡ some c)
    × (c.size ≡ suc new_bitmap.size)
    × (has c (negsuc 4) ≡ some false)
    × ((m : ℕ) → has c (pos m) ≡ has new_bitmap (pos m))
add-negative_example = add-negative new_bitmap 4 minus_five

far_panics : has new_bitmap (negsuc 63) ≡ none
unfolding has new_bitmap
far_panics = refl
