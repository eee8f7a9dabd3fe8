-- ===== src/Harness/Run.antt =====
-- The trusted parent of judge/harness.py: `_Child.read`, `_spawn_child`, `_finalize` and `run`. What
-- the child process does is a parameter, and its frames may be forged. A row is modelled by its
-- case's id, its status and its time; the texts of a row decide nothing and are left out.
pub mod Report
pub mod Judged
pub mod Forged
pub mod Total
use Prim.Native.String.{String}
use shikomi.Prelude.{
  and_then, ℕ, ◌==◌, Bool, true, false, ◌&&◌, ◌||◌, not, Option, none, some, List, [], ◌∷◌, map,
  if◌then◌else◌, length,
}
use shikomi.Prelude.Text.{str_eq}
use shikomi.Json.{
  Number, Json, null, bool, num, str, arr, obj, Items, nil, cons, Fields, end, field, to_list, get,
}
use shikomi.Harness.Nesting.{nests_too_deeply}
use shikomi.Harness.Compare.{Comparison, compare}
use shikomi.Verdict.{is_text}

-- _MAX_NESTING
abbrev pub max_nesting : ℕ
max_nesting = 511

pub data RowStatus : Type 0 where
  passed wrong_answer runtime_error time_limit_exceeded judge_error : RowStatus

abbrev pub status_text : RowStatus → String
status_text passed = "passed"
status_text wrong_answer = "wrong_answer"
status_text runtime_error = "runtime_error"
status_text time_limit_exceeded = "time_limit_exceeded"
status_text judge_error = "judge_error"

abbrev pub is_passed : RowStatus → Bool
is_passed passed = true
is_passed _ = false

pub record Row (N : Type 0) : Type 0 where
  pub test_case_id : ℕ
  pub status : RowStatus
  pub runtime_ms : Option N

-- `probes` is what `_probe_count` gives for the case's probes, 0 when it has none.
pub record TestCase (N : Type 0) : Type 0 where
  pub id : ℕ
  pub input : Json N
  pub expected : Json N
  pub probes : ℕ

-- What the parent reads from the pipe: nothing before the deadline, or a whole line of text.
pub data Line (N : Type 0) : Type 0 where
  silent : Line N
  closed : Line N
  garbage : Line N
  frame : Json N → Line N

-- How a call of a problem's validator ends; `outran` is its time limit, `faulty` its exception.
pub data Answer : Type 0 where
  answered : Bool → Answer
  outran faulty : Answer

-- The child processes: `launch` starts one, hands it the setup and reads the first line; `send` is
-- the case's message with the line that is read after it. Either is `none` where it gives no line to
-- its caller: the pipe is broken or the bytes are no UTF-8, both of which raise out of `run`, or
-- `readline` waits for the rest of a line that does not come.
pub record Processes (N : Type 0) : Type 1 where
  pub State : Type 0
  pub launch : State → Option (Line N × State)
  pub send : TestCase N → State → Option (Line N × State)
  pub kill : State → State

abbrev pub has_status : {N : Type 0} → String → Fields N → Bool
has_status t reply = is_text t (get "status" reply)

-- `_Child.read`: a dictionary always, with a sentinel where there is no usable one.
unfoldable pub read_reply : {N : Type 0} → Line N → Fields N
read_reply silent = field "status" (str "__hang__") end
read_reply closed = field "status" (str "__crash__") end
read_reply garbage = field "status" (str "__crash__") end
read_reply (frame (obj reply)) = reply
read_reply (frame _) = field "status" (str "__crash__") end

abbrev pub or_null : {N : Type 0} → Option (Json N) → Json N
or_null none = null
or_null (some v) = v

-- A list of as many results as the probes make.
abbrev pub accounts_probes : {N : Type 0} → ℕ → Option (Json N) → Bool
accounts_probes n (some (arr xs)) = length (to_list xs) == n
accounts_probes n _ = false

module _ (number : Number) (micro : Number.N number) (finite : Number.N number → Bool) where
  open number use {N}

  -- `_number_or_zero`, where `none` is the `OverflowError` of `math.isfinite`
  unfoldable pub number_or_zero : Option (Json N) → Option N
  number_or_zero (some (num a)) =
      if number.fits a then some (if finite a then a else number.of_ℕ 0) else none
  number_or_zero _ = some (number.of_ℕ 0)

  -- The validator's call: the value, the case, the probe results, and the time already spent.
  abbrev pub Validator : Type 0
  Validator = Json N → TestCase N → Json N → N → Answer

  abbrev pub answer_row : TestCase N → N → Answer → Row N
  answer_row tc time (answered b) = record {
    test_case_id = tc.id;
    status = if b then passed else wrong_answer;
    runtime_ms = some time;
  }
  answer_row tc time outran = record {
    test_case_id = tc.id;
    status = time_limit_exceeded;
    runtime_ms = none;
  }
  answer_row tc time faulty = record {
    test_case_id = tc.id;
    status = judge_error;
    runtime_ms = some time;
  }

  abbrev pub row : TestCase N → RowStatus → Option N → Row N
  row tc status time = record { test_case_id = tc.id; status = status; runtime_ms = time }

  -- The end of `_finalize`: the validator if there is one, else `compare`, which may raise.
  unfoldable pub judge_value :
      Option Validator → Comparison N → TestCase N → Fields N → N → Json N → Option (Row N)
  judge_value none comparison tc reply time actual =
      and_then (compare number micro actual tc.expected comparison)
        (λ b. some (answer_row tc time (answered b)))
  judge_value (some validate) comparison tc reply time actual =
      if tc.probes == 0
      then some (answer_row tc time (validate actual tc (arr nil) time))
      else if accounts_probes tc.probes (get "probe_results" reply)
      then some (answer_row tc time (validate actual tc (or_null (get "probe_results" reply)) time))
      else some (row tc runtime_error (some time))

  -- The branches of `_finalize`, where `time` is the reply's `runtime_ms` made a number.
  unfoldable pub finalize_at :
      TestCase N → Fields N → Comparison N → Option Validator → N → Option (Row N)
  unfolding read_reply judge_value nests_too_deeply
  finalize_at tc reply comparison validate time =
      let actual = or_null (get "actual" reply) in
      if has_status "__crash__" reply
      then some (row tc runtime_error (some (number.of_ℕ 0)))
      else if has_status "__hang__" reply || has_status "time_limit_exceeded" reply
      then some (row tc time_limit_exceeded none)
      else if has_status "runtime_error" reply
      then some (row tc runtime_error (some time))
      else if has_status "probe_error" reply && not (tc.probes == 0)
      then some (row tc judge_error (some time))
      else if nests_too_deeply actual max_nesting
          || (not (tc.probes == 0)
              && nests_too_deeply (or_null (get "probe_results" reply)) max_nesting)
      then some (row tc runtime_error (some time))
      else judge_value validate comparison tc reply time actual

  -- `_finalize`, with `none` where it raises.
  unfoldable pub finalize : TestCase N → Fields N → Comparison N → Option Validator → Option (Row N)
  unfolding number_or_zero finalize_at
  finalize tc reply comparison validate =
      and_then (number_or_zero (get "runtime_ms" reply)) (finalize_at tc reply comparison validate)

  -- After these the child is killed, and the next case gets a new one.
  unfoldable pub needs_respawn : Fields N → Bool
  needs_respawn reply =
      has_status "__hang__" reply
      || (has_status "__crash__" reply || has_status "time_limit_exceeded" reply)

  -- Probes are sent for a custom validator in operations mode only.
  abbrev pub with_probes : Bool → TestCase N → TestCase N
  with_probes sent tc = if sent then tc else record tc { probes = 0 }

  module _ (processes : Processes N) (comparison : Comparison N) (validate : Option Validator)
      (sends_probes stop_on_first_failure : Bool) where
    open processes use {State}

    abbrev pub started : Fields N → Bool
    started ack = is_text "ok" (get "setup" ack)

    -- `_spawn_child`: whether the child acknowledged; a child that did not is killed.
    unfoldable pub spawn_child : State → Option (Bool × State)
    unfolding read_reply
    spawn_child s = and_then (processes.launch s) (λ (line, s').
        some (if started (read_reply line) then (true, s') else (false, processes.kill s')))

    -- One case on a live child: its row, whether the child lives on, and the processes; `none` where
    -- an exception leaves `run`.
    unfoldable pub after_send :
        TestCase N → Option (Line N × State) → Option (Row N × (Bool × State))
    unfolding read_reply finalize needs_respawn
    after_send tc none = none
    after_send tc (some (line, s)) =
        let reply = read_reply line in
        let dead = needs_respawn reply in
        and_then (finalize tc reply comparison validate)
          (λ r. some (r, (not dead, if dead then processes.kill s else s)))

    abbrev pub after_spawn : TestCase N → Option (Bool × State) → Option (Row N × (Bool × State))
    unfolding after_send
    after_spawn tc none = none
    after_spawn tc (some (true, s)) = after_send tc (processes.send tc s)
    after_spawn tc (some (false, s)) =
        some (row tc runtime_error (some (number.of_ℕ 0)), (false, s))

    unfoldable pub judge_case : TestCase N → Bool → State → Option (Row N × (Bool × State))
    unfolding after_spawn spawn_child
    judge_case tc alive s = after_spawn tc (if alive then some (true, s) else spawn_child s)

    abbrev pub prepend_row : Row N → Option (List (Row N)) → Option (List (Row N))
    prepend_row r none = none
    prepend_row r (some rs) = some (r ∷ rs)

    -- The row is recorded, and the loop ends or goes on.
    abbrev pub record_row :
        (Bool → State → Option (List (Row N)))
        → Option (Row N × (Bool × State))
        → Option (List (Row N))
    record_row rest none = none
    record_row rest (some (r, (alive, s))) =
        if not (is_passed r.status) && stop_on_first_failure
        then some (r ∷ [])
        else prepend_row r (rest alive s)

    -- The loop of `run`; the Boolean says whether there is a live child.
    unfoldable pub judge_cases : List (TestCase N) → Bool → State → Option (List (Row N))
    unfolding judge_case
    judge_cases [] alive s = some []
    judge_cases (tc ∷ tcs) alive s =
        record_row (judge_cases tcs) (judge_case (with_probes sends_probes tc) alive s)

    abbrev pub first_id : List (TestCase N) → ℕ
    first_id [] = 0
    first_id (tc ∷ tcs) = tc.id

    -- A time limit row carries the limit as its time.
    abbrev pub fill_time : N → Row N → Row N
    fill_time limit r = record r {
      runtime_ms = some (elim r.runtime_ms [ none ↦ limit | some t ↦ t ]);
    }

    abbrev pub fill_times : N → Option (List (Row N)) → Option (List (Row N))
    fill_times limit none = none
    fill_times limit (some rs) = some (map (fill_time limit) rs)

    abbrev pub after_first : N → List (TestCase N) → Option (Bool × State) → Option (List (Row N))
    unfolding judge_cases
    after_first limit tcs none = none
    after_first limit tcs (some (true, s)) = fill_times limit (judge_cases tcs true s)
    after_first limit tcs (some (false, s)) = some (
        record {
          test_case_id = first_id tcs;
          status = runtime_error;
          runtime_ms = some (number.of_ℕ 0);
        }
        ∷ [])

    -- `run`, where `loads` says that there is no validator or that it loaded.
    unfoldable pub run : N → Bool → List (TestCase N) → State → Option (List (Row N))
    unfolding after_first spawn_child
    run limit loads tcs s =
        if loads
        then after_first limit tcs (spawn_child s)
        else some (
            record {
              test_case_id = first_id tcs;
              status = judge_error;
              runtime_ms = some (number.of_ℕ 0);
            }
            ∷ [])

  -- A row as the report's dictionary, without its texts.
  abbrev pub row_fields : Row N → Fields N
  row_fields r = field "test_case_id" (num (number.of_ℕ r.test_case_id)) (
      field "status" (str (status_text r.status))
        (field "runtime_ms" (elim r.runtime_ms [ none ↦ null | some t ↦ num t ]) end))
