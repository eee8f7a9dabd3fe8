-- ===== src/Submission/Worker.antt =====
-- `judge_submission` of backend/worker/judge.py: claim the row, run the sandbox, write the verdict.
-- What the sandbox run gives, and what other processes do while it runs, are parameters.
pub mod Settle
pub mod Once
use Prim.Native.String.{String}
use shikomi.Prelude.{
  ℕ, Bool, true, false, not, Option, none, some, List, [], ◌∷◌, ◌==◌, if◌then◌else◌,
}
use shikomi.Prelude.Text.{str_eq}
use shikomi.Services.{Table}
use shikomi.Queue.{release_inflight}
use shikomi.Submission.{
  Double, Status, running, judge_error, is_pending, is_unfinished, Submission, Mode, is_submit,
  Backend, World,
}

-- What is written of a verdict.
pub record Outcome (D : Type 0) : Type 0 where
  pub status : Status
  pub runtime_ms : Option Double
  pub detail : D

-- How the steps after the claim end: with a verdict, an exception, or a cancellation.
pub data Ending (D : Type 0) : Type 0 where
  verdict : Outcome D → Ending D
  fault : Ending D
  cancelled : Ending D

-- The problem's row as the worker loads it: the languages of its variants.
pub record Problem : Type 0 where
  pub languages : List String

abbrev pub has_variant : List String → String → Bool
has_variant [] language = false
has_variant (l ∷ ls) language = if str_eq l language then true else has_variant ls language

module _ {D : Type 0} (b : Backend D) where
  -- The `finally` block.
  unfoldable pub finally_release : ℕ → ℕ → Mode → Submission D → World b → World b
  finally_release now id mode sub w =
      if is_submit mode
      then record w {
        cache = (release_inflight b.redis now sub.user_id sub.problem_id id w.cache).1;
      }
      else w

  -- `UPDATE ... SET status = 'running' WHERE id = :id AND status = 'pending'`
  unfoldable pub claim : ℕ → ℕ → World b → ℕ × World b
  claim now id w =
      let (count, rows) =
        Table.update b.table id (λ s. is_pending s.status)
          (λ s. record s { status = running; updated_at = now }) w.rows in
      (count, record w { rows = rows })

  -- `_fail_submission`
  unfoldable pub fail_submission : ℕ → ℕ → World b → World b
  fail_submission now id w = record w {
    rows =
        (Table.update b.table id (λ s. is_unfinished s.status)
          (λ s. record s { status = judge_error; updated_at = now }) w.rows).1;
  }

  -- The handler of an exception: the row, if it is still there, becomes `judge_error`.
  unfoldable pub record_fault : ℕ → ℕ → World b → World b
  record_fault now id w = record w {
    rows =
        (Table.update b.table id (λ s. true)
          (λ s. record s { status = judge_error; updated_at = now }) w.rows).1;
  }

  -- The verdict's row; on a row that is gone the flush raises, and the handler finds nothing either.
  unfoldable pub write_verdict : ℕ → ℕ → Outcome D → World b → World b
  write_verdict now id v w = record w {
    rows =
        (Table.update b.table id (λ s. true)
          (λ s. record s {
            status = v.status;
            runtime_ms = v.runtime_ms;
            verdict_detail = some v.detail;
            updated_at = now;
          })
          w.rows).1;
  }

  abbrev pub end_run : ℕ → ℕ → Ending D → World b → World b
  end_run now id (verdict v) w = write_verdict now id v w
  end_run now id fault w = record_fault now id w
  end_run now id cancelled w = fail_submission now id w

  module _ (problems : ℕ → Option Problem) (judge : Submission D → Ending D)
      (meanwhile : World b → World b) where
    -- After the claim: the variant, the run, and what is written at the time `later`.
    unfoldable pub judge_claimed : ℕ → ℕ → ℕ → Submission D → Problem → World b → World b
    judge_claimed now later id sub p w =
        if has_variant p.languages sub.language
        then end_run later id (judge sub) (meanwhile w)
        else record_fault now id w

    abbrev pub when_claimed : ℕ → ℕ → ℕ → Submission D → Problem → ℕ × World b → World b
    when_claimed now later id sub p (count, w) =
        if count == 1 then judge_claimed now later id sub p w else w

    abbrev pub when_problem : ℕ → ℕ → ℕ → Submission D → Option Problem → World b → World b
    when_problem now later id sub none w = record_fault now id w
    when_problem now later id sub (some p) w = when_claimed now later id sub p (claim now id w)

    abbrev pub when_row : ℕ → ℕ → ℕ → Mode → Option (Submission D) → World b → World b
    when_row now later id mode none w = w
    when_row now later id mode (some sub) w =
        finally_release later id mode sub
          (when_problem now later id sub (problems sub.problem_id) w)

    unfoldable pub judge_submission : ℕ → ℕ → ℕ → Mode → World b → World b
    judge_submission now later id mode w =
        when_row now later id mode (Table.find b.table w.rows id) w
