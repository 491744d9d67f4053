-- ===== src/Common/Pieces.antt =====
-- The pieces of a text around a byte.
use Prim.Native.Nat.{ℕ}
use mathlib.Core.Path.{◌≡◌, refl}
use mathlib.Core.Bool.{false}
use mathlib.Core.Option.{none, some}
use mathlib.Core.List.{List, [], ◌∷◌, ◌++◌}
use soelib.Common.Tests.{◌==◌, ==_iff}
use soelib.Common.Lists.{All}
use soelib.Common.Bytes.{cut_at, first_piece, second_piece}

-- A text without a byte.
abbrev pub Without : ℕ → List ℕ → Type 0
Without b s = All (λ c. (c == b) ≡ false) s

pub cut_at-append : (b : ℕ) (s t : List ℕ) → Without b s → cut_at b (s ++ b ∷ t) ≡ some (s, b ∷ t)
cut_at-append b [] t h = rw ((==_iff b b).1 refl) refl
cut_at-append b (c ∷ cs) t h = rw (h.0, cut_at-append b cs t h.1) refl

pub cut_at-none : (b : ℕ) (s : List ℕ) → Without b s → cut_at b s ≡ none
cut_at-none b [] h = refl
cut_at-none b (c ∷ cs) h = rw (h.0, cut_at-none b cs h.1) refl

pub first_piece-append : (b : ℕ) (s t : List ℕ) → Without b s → first_piece b (s ++ b ∷ t) ≡ s
first_piece-append b [] t h = rw ((==_iff b b).1 refl) refl
first_piece-append b (c ∷ cs) t h = rw (h.0, first_piece-append b cs t h.1) refl

pub first_piece_whole : (b : ℕ) (s : List ℕ) → Without b s → first_piece b s ≡ s
first_piece_whole b [] h = refl
first_piece_whole b (c ∷ cs) h = rw (h.0, first_piece_whole b cs h.1) refl

pub second_piece-append :
    (b : ℕ) (s t : List ℕ) → Without b s → Without b t → second_piece b (s ++ b ∷ t) ≡ some t
second_piece-append b [] t h k = rw ((==_iff b b).1 refl, first_piece_whole b t k) refl
second_piece-append b (c ∷ cs) t h k = rw (h.0, second_piece-append b cs t h.1 k) refl

pub second_piece-none : (b : ℕ) (s : List ℕ) → Without b s → second_piece b s ≡ none
second_piece-none b [] h = refl
second_piece-none b (c ∷ cs) h = rw (h.0, second_piece-none b cs h.1) refl
