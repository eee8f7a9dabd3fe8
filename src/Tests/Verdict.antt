-- ===== src/Tests/Verdict.antt =====
-- Verdicts of small reports.
use Prim.Native.String.{String}
use shikomi.Prelude.{ℕ, ◌≡◌, ◌≤◌, refl, true, false, Option, none, some, List, [], ◌∷◌, length}
use shikomi.Json.{Json, num, str, arr, obj, Items, nil, cons, Fields, end, field}
use shikomi.Submission.{accepted}
use shikomi.Verdict.{
  aggregate, parse_harness_output, ids_match, Verdict, ContainerResult, sum_runtimes,
}
use shikomi.Verdict.Report.{AllPassed}
use shikomi.Verdict.Decide.{
  IsClear, aggregate-accepted, aggregate-AllPassed, aggregate-passed_le_total,
}
use shikomi.Tests.Instances.{numbers}

abbrev row : ℕ → String → Fields ℕ
row i status =
    field "test_case_id" (num i) (field "status" (str status) (field "runtime_ms" (num 3) end))

abbrev report : Items ℕ → String → Option (Json ℕ)
report rows text = some (obj (field "results" (arr rows) end))

abbrev both : Items ℕ
both = cons (obj (row 0 "passed")) (cons (obj (row 1 "passed")) nil)

abbrev clean : ContainerResult
clean = record { timed_out = false; oom_killed = false; stdout_truncated = false }

abbrev verdict : Verdict ℕ
verdict = record {
  status = accepted;
  runtime_ms = some 6;
  results = row 0 "passed" ∷ row 1 "passed" ∷ [];
  passed = 2;
  total = 2;
}

verdict-lem :
    aggregate numbers clean (parse_harness_output numbers (report both) "" (0 ∷ 1 ∷ [])) 2
    ≡ some verdict
unfolding aggregate parse_harness_output
verdict-lem = refl

aggregate-accepted_example :
    IsClear numbers clean
    × (rs : List (Fields ℕ)) × (parse_harness_output numbers (report both) "" (0 ∷ 1 ∷ [])
        ≡ some rs)
    × (length rs ≡ 2)
    × (ids_match numbers rs (0 ∷ 1 ∷ []) ≡ true)
    × AllPassed rs
    × (verdict.passed ≡ verdict.total)
aggregate-accepted_example =
    aggregate-accepted numbers (report both) "" (0 ∷ 1 ∷ []) clean verdict verdict-lem refl

aggregate-AllPassed_example :
    (v : Verdict ℕ) × (aggregate numbers clean (some (row 0 "passed" ∷ [])) 1 ≡ some v)
    × (v.status ≡ accepted)
    × (v.passed ≡ 1)
unfolding sum_runtimes
aggregate-AllPassed_example =
    aggregate-AllPassed numbers clean (row 0 "passed" ∷ []) 1 3 (refl, refl, refl) (refl, tt) refl

aggregate-passed_le_total_example : (verdict.passed ≤ verdict.total) × (verdict.total ≡ 2)
aggregate-passed_le_total_example =
    aggregate-passed_le_total numbers (report both) "" (0 ∷ 1 ∷ []) clean verdict verdict-lem

-- A report that stops early on a pass is refused, and one that stops on a failure is not.
short_pass :
    parse_harness_output numbers (report (cons (obj (row 0 "passed")) nil)) "" (0 ∷ 1 ∷ []) ≡ none
unfolding parse_harness_output
short_pass = refl

short_failure :
    parse_harness_output numbers (report (cons (obj (row 0 "wrong_answer")) nil)) "" (0 ∷ 1 ∷ [])
    ≡ some (row 0 "wrong_answer" ∷ [])
unfolding parse_harness_output
short_failure = refl
