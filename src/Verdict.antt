-- ===== src/Verdict.antt =====
-- backend/worker/aggregate.py: from the harness's report and the container's signals to a verdict.
pub mod Report
pub mod Decide
use Prim.Native.String.{String}
use shikomi.Prelude.{
  ℕ, ◌≡◌, Bool, true, false, ◌&&◌, ◌||◌, not, Option, none, some, List, [], ◌∷◌, ◌==◌, leb, length,
  count_if, if◌then◌else◌,
}
use shikomi.Prelude.Text.{str_eq}
use shikomi.Json.{
  Number, Json, null, bool, num, str, arr, obj, Items, nil, cons, Fields, end, field, get,
}
use shikomi.Submission.{
  Status, accepted, wrong_answer, runtime_error, time_limit_exceeded, memory_limit_exceeded,
  output_limit_exceeded, judge_error,
}

-- `r.get(key) == text`
abbrev pub is_text : {N : Type 0} → String → Option (Json N) → Bool
is_text t (some (str s)) = str_eq s t
is_text t _ = false

abbrev pub has_passed : {N : Type 0} → Fields N → Bool
has_passed r = is_text "passed" (get "status" r)

-- `results[-1].get("status") == "passed"`
abbrev pub last_passed : {N : Type 0} → List (Fields N) → Bool
last_passed [] = false
last_passed (r ∷ []) = has_passed r
last_passed (r ∷ s ∷ rs) = last_passed (s ∷ rs)

-- A list of objects, or `none` where an item is no object.
abbrev pub prepend {ℓ} : {A : Type ℓ} → A → Option (List A) → Option (List A)
prepend x none = none
prepend x (some xs) = some (x ∷ xs)

unfoldable pub objects : {N : Type 0} → Items N → Option (List (Fields N))
objects nil = some []
objects (cons (obj r) xs) = prepend r (objects xs)
objects (cons _ xs) = none

-- `doc.get("results") if isinstance(doc, dict)`, a list of dicts or unusable
abbrev pub results_list : {N : Type 0} → Option (Json N) → Option (List (Fields N))
unfolding objects
results_list (some (arr xs)) = objects xs
results_list _ = none

unfoldable pub report_rows : {N : Type 0} → Json N → Option (List (Fields N))
unfolding results_list
report_rows (obj doc) = results_list (get "results" doc)
report_rows _ = none

module _ (number : Number) where
  open number use {N}

  -- `r.get("test_case_id") == id`, where Python's `True` is 1 and `False` is 0
  abbrev pub is_id : Option (Json N) → ℕ → Bool
  is_id (some (num a)) n = number.eq a (number.of_ℕ n)
  is_id (some (bool true)) n = n == 1
  is_id (some (bool false)) n = n == 0
  is_id _ n = false

  -- `[r.get("test_case_id") for r in results] == case_ids[:len(results)]`
  unfoldable pub ids_match : List (Fields N) → List ℕ → Bool
  ids_match [] ids = true
  ids_match (r ∷ rs) [] = false
  ids_match (r ∷ rs) (i ∷ ids) = is_id (get "test_case_id" r) i && ids_match rs ids

  -- `_accounts_for`
  unfoldable pub accounts_for : List (Fields N) → List ℕ → Bool
  unfolding ids_match
  accounts_for [] [] = true
  accounts_for (r ∷ rs) [] = false
  accounts_for [] (i ∷ ids) = false
  accounts_for (r ∷ rs) (i ∷ ids) =
      leb (length (r ∷ rs)) (length (i ∷ ids))
      && (ids_match (r ∷ rs) (i ∷ ids)
          && (length (r ∷ rs) == length (i ∷ ids) || not (last_passed (r ∷ rs))))

  abbrev pub when_accounted : List ℕ → Option (List (Fields N)) → Option (List (Fields N))
  unfolding accounts_for
  when_accounted ids none = none
  when_accounted ids (some rs) = if accounts_for rs ids then some rs else none

  module _ (loads : String → Option (Json N)) where
    abbrev pub parsed_rows : Option (Json N) → Option (List (Fields N))
    unfolding report_rows
    parsed_rows none = none
    parsed_rows (some doc) = report_rows doc

    -- `parse_harness_output` with the ids of the cases sent; `loads` is `json.loads`, `none` its error.
    unfoldable pub parse_harness_output : String → List ℕ → Option (List (Fields N))
    unfolding parsed_rows when_accounted
    parse_harness_output stdout ids = when_accounted ids (parsed_rows (loads stdout))

pub record Verdict (N : Type 0) : Type 0 where
  pub status : Status
  pub runtime_ms : Option N
  pub results : List (Fields N)
  pub passed : ℕ
  pub total : ℕ

pub record ContainerResult : Type 0 where
  pub timed_out : Bool
  pub oom_killed : Bool
  pub stdout_truncated : Bool

-- `_CASE_STATUS.get(status, "judge_error")`; a status that cannot be hashed raises.
unfoldable pub case_status : {N : Type 0} → Option (Json N) → Option Status
case_status (some (str s)) = some (
    if str_eq s "wrong_answer"
    then wrong_answer
    else if str_eq s "runtime_error"
    then runtime_error
    else if str_eq s "time_limit_exceeded"
    then time_limit_exceeded
    else if str_eq s "memory_limit_exceeded"
    then memory_limit_exceeded
    else judge_error)
case_status (some (arr xs)) = none
case_status (some (obj fs)) = none
case_status _ = some judge_error

-- The status of the first row that has not passed, or `accepted`.
unfoldable pub overall : {N : Type 0} → List (Fields N) → Option Status
unfolding case_status
overall [] = some accepted
overall (r ∷ rs) = if has_passed r then overall rs else case_status (get "status" r)

module _ (number : Number) where
  open number use {N}

  -- `r.get("runtime_ms") or 0` as a number; what cannot be added raises.
  abbrev pub runtime_of : Option (Json N) → Option N
  runtime_of (some (num a)) = some a
  runtime_of (some (bool true)) = some (number.of_ℕ 1)
  runtime_of (some (str s)) = if str_eq s "" then some (number.of_ℕ 0) else none
  runtime_of (some (arr (cons x xs))) = none
  runtime_of (some (obj (field k v fs))) = none
  runtime_of _ = some (number.of_ℕ 0)

  abbrev pub add_runtime : Option N → Option N → Option N
  add_runtime (some a) (some b) = some (number.add a b)
  add_runtime none _ = none
  add_runtime (some a) none = none

  -- `sum(...)`, from the left
  unfoldable pub sum_runtimes : Option N → List (Fields N) → Option N
  sum_runtimes acc [] = acc
  sum_runtimes acc (r ∷ rs) = sum_runtimes (add_runtime acc (runtime_of (get "runtime_ms" r))) rs

  abbrev pub judged : List (Fields N) → ℕ → Option N → Option Status → Option (Verdict N)
  judged rs total (some t) (some s) = some (record {
    status = s;
    runtime_ms = elim rs [ [] ↦ none | r ∷ rest ↦ some (number.round3 t) ];
    results = rs;
    passed = count_if has_passed rs;
    total = total;
  })
  judged rs total none _ = none
  judged rs total (some t) none = none

  abbrev pub no_result : Status → ℕ → Option (Verdict N)
  no_result s total =
      some (record { status = s; runtime_ms = none; results = []; passed = 0; total = total })

  abbrev pub rows_or_none : Option (List (Fields N)) → List (Fields N)
  rows_or_none none = []
  rows_or_none (some rs) = rs

  abbrev pub by_rows : Option (List (Fields N)) → ℕ → Option (Verdict N)
  unfolding sum_runtimes overall
  by_rows none total = no_result judge_error total
  by_rows (some rs) total = judged rs total (sum_runtimes (some (number.of_ℕ 0)) rs) (overall rs)

  -- `aggregate`; `none` is an exception while the rows are read.
  unfoldable pub aggregate : ContainerResult → Option (List (Fields N)) → ℕ → Option (Verdict N)
  unfolding by_rows
  aggregate c results total =
      if c.timed_out
      then no_result time_limit_exceeded total
      else if c.oom_killed
      then no_result memory_limit_exceeded total
      else if c.stdout_truncated
      then some (record {
        status = output_limit_exceeded;
        runtime_ms = none;
        results = rows_or_none results;
        passed = count_if has_passed (rows_or_none results);
        total = total;
      })
      else by_rows results total
