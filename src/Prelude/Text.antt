-- ===== src/Prelude/Text.antt =====
-- Comparison of native texts, and association lists with text keys (Python's `dict` with `str` keys).
use Prim.Native.String.{String}
use text.Mathlib.Text.{◌==◌ as text_eq}
pub use text.Mathlib.TextEquality.{eq_iff}
pub use text.Mathlib.TextPositions.{eq_refl}
use shikomi.Prelude.{Bool}

abbrev pub str_eq : String → String → Bool
str_eq a b = text_eq a b
