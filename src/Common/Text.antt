-- ===== src/Common/Text.antt =====
-- Texts that the code only compares, joins and searches: the native `String`.
pub use Prim.Native.String.{String, ◌++◌ as ◌<>◌}
use mathlib.Core.Bool.{Bool, true, false}
use mathlib.Core.Option.{none, some}
use text.Mathlib.Text
use text.Mathlib.Text.{find?}
use text.Mathlib.TextEquality.{eq_iff}
use soelib.Common.Tests.{Eq}

instance abbrev pub text_eq : Eq String
text_eq = record { beq = Text.◌==◌; beq_iff = eq_iff }

-- The code's `s == ""`.
abbrev pub is_empty : String → Bool
is_empty s = Text.◌==◌ s ""

-- `strings.Contains`
abbrev pub contains : String → String → Bool
contains s sub = elim (find? s sub) [ none ↦ false | some i ↦ true ]
