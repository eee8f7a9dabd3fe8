-- ===== src/Tests/Disclosure.antt =====
-- A sample that passed and two hidden cases that failed.
use Prim.Native.String.{String}
use shikomi.Prelude.{ℕ, true, false, some, List, [], ◌∷◌}
use shikomi.Disclosure.{
  CaseRow, TestCase, AllDisclose, build_verdict_results, build_verdict_results-Discloses,
}

abbrev row : ℕ → String → CaseRow ℕ
row n status = record { test_case_id = n; status = status; runtime_ms = some 4; detail = 0 }

abbrev results : List (CaseRow ℕ)
results = row 1 "passed" ∷ row 2 "wrong_answer" ∷ row 3 "wrong_answer" ∷ []

abbrev case_of : ℕ → TestCase ℕ
case_of n = record { ordinal = n; is_sample = false; input = 7; expected = 8 }

abbrev cases : List (TestCase ℕ)
cases = record (case_of 1) { is_sample = true } ∷ case_of 2 ∷ case_of 3 ∷ []

abbrev capped : ℕ → ℕ
capped n = n

build_verdict_results-Discloses_example :
    AllDisclose ℕ capped results cases results (build_verdict_results ℕ capped results cases)
build_verdict_results-Discloses_example = build_verdict_results-Discloses ℕ capped results cases
