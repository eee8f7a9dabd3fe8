-- ===== src/Tests/Harness.antt =====
-- Two cases on a child that answers the first one and dies on the second.
use shikomi.Prelude.{
  ℕ, ◌≡◌, ◌≤◌, refl, Bool, true, false, ◌||◌, Option, none, some, List, [], ◌∷◌, map, ◌==◌, ltb,
  if◌then◌else◌,
}
use shikomi.Json.{Json, num, str, arr, obj, nil, cons, Fields, end, field, get, null}
use shikomi.Harness.Compare.{Comparison, compare}
use shikomi.Harness.Nesting.{nests_too_deeply, depth, nests_too_deeply-depth}
use shikomi.Harness.Run.{
  Row, passed, runtime_error, TestCase, Line, closed, frame, Processes, row_fields, run, finalize,
  or_null, has_status, max_nesting,
}
use shikomi.Harness.Run.Report.{ids}
use shikomi.Harness.Run.Judged.{run-accounts_for}
use shikomi.Harness.Run.Forged.{finalize-passed}
use shikomi.Verdict.{accounts_for}
use shikomi.Tests.Instances.{numbers}

abbrev finite : ℕ → Bool
finite n = true

abbrev ok_reply : Fields ℕ
ok_reply = field "status" (str "ok") (field "actual" (num 5) (field "runtime_ms" (num 3) end))

abbrev case_of : ℕ → TestCase ℕ
case_of n = record { id = n; input = arr nil; expected = num 5; probes = 0 }

abbrev answer : TestCase ℕ → ℕ → Option (Line ℕ × ℕ)
answer tc s = some (if tc.id == 1 then frame (obj ok_reply) else closed, s)

abbrev processes : Processes ℕ
processes = record {
  State = ℕ;
  launch = λ s. some (frame (obj (field "setup" (str "ok") end)), s);
  send = answer;
  kill = λ s. s;
}

abbrev exact : Comparison ℕ
exact = record { mode = none; epsilon = none }

abbrev rows : List (Row ℕ)
rows =
    record { test_case_id = 1; status = passed; runtime_ms = some 3 }
    ∷ record { test_case_id = 2; status = runtime_error; runtime_ms = some 0 }
    ∷ []

rows-lem :
    run numbers 0 finite processes exact none false false 2000 true (case_of 1 ∷ case_of 2 ∷ []) 0
    ≡ some rows
unfolding run compare
rows-lem = refl

run-accounts_for_example :
    accounts_for numbers
      (map (row_fields numbers 0 finite) rows)
      (ids numbers 0 finite (case_of 1 ∷ case_of 2 ∷ []))
    ≡ true
run-accounts_for_example =
    run-accounts_for numbers 0 finite processes exact none false false 2000 true (case_of 1)
      (case_of 2 ∷ []) 0 rows rows-lem

abbrev passed_row : Row ℕ
passed_row = record { test_case_id = 1; status = passed; runtime_ms = some 3 }

passed-lem : finalize numbers 0 finite (case_of 1) ok_reply exact none ≡ some passed_row
unfolding finalize compare
passed-lem = refl

finalize-passed_example :
    (compare numbers 0 (num 5) (num 5) exact ≡ some true)
    × ((depth (or_null (get "actual" ok_reply)) ≤ max_nesting)
        × ((has_status "__crash__" ok_reply ≡ false)
            × ((has_status "__hang__" ok_reply || has_status "time_limit_exceeded" ok_reply ≡ false)
                × (has_status "runtime_error" ok_reply ≡ false))))
finalize-passed_example =
    finalize-passed numbers 0 finite (case_of 1) ok_reply exact passed_row passed-lem refl

abbrev nested : Json ℕ
nested = arr (cons (num 1) (cons (arr (cons null nil)) nil))

nests_too_deeply-depth_example : nests_too_deeply nested 1 ≡ ltb 1 (depth nested)
nests_too_deeply-depth_example = nests_too_deeply-depth nested 1
