-- ===== src/Submission/Create.antt =====
-- `create_submission`: the guards, the in-flight lock, the row, the job. What the services do to a
-- call, and what other processes do meanwhile, is given by `Faults`.
use Prim.Native.String.{String, len}
use shikomi.Prelude.{
  ℕ, Bool, true, false, Option, none, some, List, [], ◌∷◌, ltb, ◌==◌, any_of, if◌then◌else◌,
}
use shikomi.Prelude.Text.{str_eq}
use shikomi.Services.{Table, Jobs}
use shikomi.Queue.{within_rate_limit, acquire_inflight, release_inflight}
use shikomi.Submission.{
  pending, judge_error, is_pending, Submission, Mode, submit, run, is_submit, Backend, World,
}

pub data ApiError : Type 0 where
  code_too_large rate_limited not_found language_required unsupported_language : ApiError
  submission_in_flight queue_unavailable internal : ApiError

pub data Result : Type 0 where
  ok : ℕ → Result
  err : ApiError → Result

-- How a call of a service ends: with its effect and an answer, with neither, or with the effect and
-- an exception in place of the answer (a lost reply).
pub data Outcome : Type 0 where
  fine lost stored : Outcome

abbrev pub attempt {ℓ κ} : {A : Type ℓ} {S : Type κ} → Outcome → (S → A × S) → S → Option A × S
attempt fine f s = (some (f s).0, (f s).1)
attempt lost f s = (none, s)
attempt stored f s = (none, (f s).1)

pub record Settings : Type 0 where
  pub max_code_bytes : ℕ
  pub submit_rate_limit : ℕ
  pub run_rate_limit : ℕ

-- `session.get(Problem, id)`: whether it is published, and the languages that it is offered in.
pub record Problem : Type 0 where
  pub is_published : Bool
  pub languages : List String

pub record Request : Type 0 where
  pub user_id : ℕ
  pub problem_id : ℕ
  pub code : String
  pub mode : Mode
  pub language : Option String

pub record Faults {D : Type 0} (b : Backend D) : Type 0 where
  pub rate : Outcome
  pub acquire : Outcome
  pub enqueue : Outcome
  pub commit_fails : Bool
  pub mark_fails : Bool
  pub release_fails : Bool
  -- what other processes do between the failed enqueue and the update that follows it
  pub meanwhile : World b → World b

abbrev pub offers : List String → String → Bool
offers offered language = any_of (λ l. str_eq l language) offered

abbrev pub offered_or_refused : List String → String → Option ApiError × String
offered_or_refused offered language =
    if offers offered language then (none, language) else (some unsupported_language, language)

-- The language to judge in, or the refusal. Without any language, `offered[0]` raises.
unfoldable pub choose_language : List String → Option String → Option ApiError × String
choose_language offered (some language) = offered_or_refused offered language
choose_language [] none = (some internal, "")
choose_language (l ∷ []) none = (none, l)
choose_language (l ∷ m ∷ ls) none = (some language_required, l)

abbrev pub rate_limit_of : Settings → Mode → ℕ
rate_limit_of settings submit = settings.submit_rate_limit
rate_limit_of settings run = settings.run_rate_limit

abbrev pub action_of : Mode → String
action_of submit = "submit"
action_of run = "run"

module _ {D : Type 0} (b : Backend D) (settings : Settings) (problems : ℕ → Option Problem) where
  module _ (now sub_id : ℕ) (f : Faults b) (r : Request) where
    -- Freeing the lock, best effort, for a submit.
    unfoldable pub release_lock : World b → World b
    release_lock w =
        if is_submit r.mode
        then (if f.release_fails then w else record w {
          cache = (release_inflight b.redis now r.user_id r.problem_id sub_id w.cache).1;
        })
        else w

    -- After the enqueue raised: fail the row if it is still pending, and free the lock if it was.
    unfoldable pub fail_enqueue : World b → World b
    fail_enqueue w =
        if f.mark_fails
        then release_lock w
        else let (count, rows) =
            Table.update b.table sub_id (λ s. is_pending s.status)
              (λ s. record s { status = judge_error; updated_at = now }) w.rows in
          let w' : World b = record w { rows = rows } in if count == 1 then release_lock w' else w'

    abbrev pub new_row : String → Submission D
    new_row language = record {
      user_id = r.user_id;
      problem_id = r.problem_id;
      code = r.code;
      language = language;
      status = pending;
      verdict_detail = none;
      runtime_ms = none;
      is_run = elim r.mode [ submit ↦ false | run ↦ true ];
      created_at = now;
      updated_at = now;
    }

    abbrev pub enqueue_job : World b → Bool × World b
    enqueue_job w = (true, record w { queue = Jobs.enqueue b.jobs sub_id r.mode w.queue })

    abbrev pub finish : Option Bool × World b → Result × World b
    finish (some _, w) = (ok sub_id, w)
    finish (none, w) = (err queue_unavailable, fail_enqueue (f.meanwhile w))

    -- The row first, then the job.
    unfoldable pub write_and_enqueue : String → World b → Result × World b
    write_and_enqueue language w =
        if f.commit_fails
        then (err internal, release_lock w)
        else finish (
            attempt f.enqueue enqueue_job
              (record w { rows = Table.insert b.table sub_id (new_row language) w.rows }))

    abbrev pub take_lock : World b → Bool × World b
    take_lock w =
        let (taken, cache) = acquire_inflight b.redis now r.user_id r.problem_id sub_id w.cache in
        (taken, record w { cache = cache })

    abbrev pub when_locked : String → Option Bool × World b → Result × World b
    when_locked language (none, w) = (err queue_unavailable, w)
    when_locked language (some false, w) = (err submission_in_flight, w)
    when_locked language (some true, w) = write_and_enqueue language w

    unfoldable pub lock_and_write : String → World b → Result × World b
    lock_and_write language w =
        if is_submit r.mode
        then when_locked language (attempt f.acquire take_lock w)
        else write_and_enqueue language w

    abbrev pub when_language : Option ApiError × String → World b → Result × World b
    when_language (some e, language) w = (err e, w)
    when_language (none, language) w = lock_and_write language w

    abbrev pub when_found : Option Problem → World b → Result × World b
    when_found none w = (err not_found, w)
    when_found (some p) w =
        if p.is_published
        then when_language (choose_language p.languages r.language) w
        else (err not_found, w)

    abbrev pub count_request : World b → Bool × World b
    count_request w =
        let (within, cache) =
          within_rate_limit b.redis now r.user_id (action_of r.mode) (rate_limit_of settings r.mode)
            w.cache in
        (within, record w { cache = cache })

    abbrev pub when_counted : Option Bool × World b → Result × World b
    when_counted (none, w) = (err queue_unavailable, w)
    when_counted (some false, w) = (err rate_limited, w)
    when_counted (some true, w) = when_found (problems r.problem_id) w

    unfoldable pub create_submission : World b → Result × World b
    create_submission w =
        if ltb settings.max_code_bytes (len r.code)
        then (err code_too_large, w)
        else when_counted (attempt f.rate count_request w)
