-- ===== src/Utils/CutLaws.antt =====
-- The cut of a text by bytes in common/utils/string.go keeps as many whole characters as fit.
use soelib.Common.{ℕ, suc, ◌-◌, ◌≤◌, List, [], ◌∷◌, ◌++◌, leb, if◌then◌else◌, length, All, ◌≡◌, ◌⊎◌}
use soelib.Utils.Cut.{width, backwards, cut_loop}

-- The bytes of a character: an ASCII byte, or a first byte and as many others as it says.
abbrev pub IsFollowing : ℕ → Type 0
IsFollowing b = (128 ≤ b) × (b ≤ 191)

abbrev pub IsCharacter : List ℕ → Type 0
IsCharacter [] = ⊥
IsCharacter (b ∷ bs) =
    ((b ≤ 127) × (bs ≡ []))
    ⊎ ((192 ≤ b) × (b ≤ 253) × All IsFollowing bs × (suc (length bs) ≡ width b))

abbrev pub joined : List (List ℕ) → List ℕ
joined [] = []
joined (c ∷ cs) = c ++ joined cs

-- The characters that fit in a number of bytes.
abbrev pub fitting : ℕ → List (List ℕ) → List ℕ
fitting n [] = []
fitting n (c ∷ cs) =
    let rest = fitting (n - length c) cs in if leb (length c) n then c ++ rest else []

abbrev cut : List ℕ → List ℕ
cut bs = cut_loop bs (backwards bs []) 0
