-- ===== src/Tests/Comparison.antt =====
-- A custom validator for two languages.
use Prim.Native.String.{String}
use shikomi.Prelude.{ℕ, ◌≡◌, refl, Bool, some}
use shikomi.Prelude.Text.{str_eq}
use shikomi.Json.{str, obj, Fields, end, field}
use shikomi.Comparison.{for_language, validator_codes}

abbrev blank : String → Bool
blank s = str_eq s ""

abbrev codes : Fields ℕ
codes = field "python" (str "p") (field "rust" (str "r") end)

abbrev comparison : Fields ℕ
comparison = field "mode" (str "custom_validator") (field "validator_code" (obj codes) end)

abbrev for_rust : Fields ℕ
for_rust = field "mode" (str "custom_validator") (field "validator_code" (str "r") end)

codes-lem : validator_codes comparison ≡ some codes
unfolding validator_codes
codes-lem = refl

rust-lem : for_language blank (some comparison) "rust" ≡ some for_rust
unfolding for_language
rust-lem = refl
