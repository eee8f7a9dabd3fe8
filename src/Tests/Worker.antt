-- ===== src/Tests/Worker.antt =====
-- A pending submission that is judged, delivered twice, swept and enqueued again.
use shikomi.Prelude.{
  ℕ, ◌+◌, ◌<◌, ◌≤◌, ◌⊎◌, ◌≡◌, ◌≢◌, refl, true, false, Option, none, some, [], ◌∷◌, arith,
}
use shikomi.Services.{Table, Jobs, matched}
use shikomi.Services.Redis.{Redis, inflight, Entry}
use shikomi.Queue.{holds}
use shikomi.Submission.{judge_error, is_unfinished, Submission, pending, accepted, submit, World}
use shikomi.Submission.Worker.{Ending, verdict, fault, Problem, judge_submission, when_problem}
use shikomi.Submission.Worker.Settle.{IsSettled, judge_submission-IsSettled}
use shikomi.Submission.Worker.Once.{judge_submission_once, judge_submission-lock}
use shikomi.Submission.Sweeper.{Faults, sweep_stale, requeue_lost_jobs, is_stale}
use shikomi.Submission.Sweeper.Stale.{find-sweep_stale, sweep_stale-locks}
use shikomi.Submission.Sweeper.Requeue.{known-requeue_lost_jobs}
use shikomi.Tests.Instances.{cache, table, jobs}
use shikomi.Tests.Submission.{backend}

abbrev sub : Submission ℕ
sub = record {
  user_id = 3;
  problem_id = 4;
  code = "pass";
  language = "rust";
  status = pending;
  verdict_detail = none;
  runtime_ms = none;
  is_run = false;
  created_at = 10;
  updated_at = 10;
}

abbrev judged : Submission ℕ
judged = record sub { status = accepted }

-- The submission 9 is pending, and holds its lock.
abbrev world : World backend
world = record {
  cache = λ k. some (record { value = 9; expires = none });
  rows = (9 ∷ [], λ j. some sub);
  queue = [];
}

abbrev done : World backend
done = record world { rows = (9 ∷ [], λ j. some judged) }

abbrev problems : ℕ → Option Problem
problems n = some (record { languages = "python" ∷ "rust" ∷ [] })

abbrev judge : Submission ℕ → Ending ℕ
judge s = verdict (record { status = accepted; runtime_ms = some 7; detail = 1 })

abbrev crash : Submission ℕ → Ending ℕ
crash s = fault

abbrev no_faults : Faults
no_faults = record { release_fails = λ n. false; check_fails = false; enqueue_fails = λ n. false }

judge_submission-IsSettled_example : IsSettled (
    Table.find table (judge_submission backend problems judge (λ w. w) 60 70 9 submit world).rows 9)
judge_submission-IsSettled_example =
    judge_submission-IsSettled backend problems judge (λ w. w) 60 70 9 submit sub world refl refl
      refl

judge_submission_once_example :
    Table.find table
      (judge_submission backend problems judge
        (judge_submission backend problems crash (λ w. w) 61 62 9 submit)
        60
        70
        9
        submit
        world).rows
      9
    ≡ Table.find table
        (judge_submission backend problems judge (λ w. w) 60 70 9 submit world).rows
        9
judge_submission_once_example =
    judge_submission_once backend problems judge crash (λ w. w) 60 70 61 62 9 submit submit sub
      (record { languages = "python" ∷ "rust" ∷ [] }) world refl refl refl

abbrev after : World backend
after = judge_submission backend problems judge (λ w. w) 60 70 9 submit world

abbrev before : World backend
before = when_problem backend problems judge (λ w. w) 60 70 9 sub (problems 4) world

judge_submission-lock_example :
    (holds 9 (Redis.entry cache after.cache 70 (inflight 3 4)) ≡ false)
    × ((o : Entry)
        → Redis.entry cache before.cache 70 (inflight 3 4) ≡ some o
        → o.value ≢ 9
        → Redis.entry cache after.cache 70 (inflight 3 4) ≡ some o)
judge_submission-lock_example =
    judge_submission-lock backend problems judge (λ w. w) 60 70 9 sub world refl

sweep_stale-locks_example :
    ((id : ℕ) (s : Submission ℕ)
      → Table.find table world.rows id ≡ some s
      → is_stale 900 s ≡ true
      → false ≡ false
      → holds id (
          Redis.entry cache
            (sweep_stale backend no_faults 900 world).cache
            900
            (inflight s.user_id s.problem_id))
        ≡ false)
    × ((u p : ℕ) (e : Entry)
        → Redis.entry cache world.cache 900 (inflight u p) ≡ some e
        → matched (is_stale 900) (Table.find table world.rows e.value) ≡ 0
        → Redis.entry cache (sweep_stale backend no_faults 900 world).cache 900 (inflight u p)
          ≡ some e)
sweep_stale-locks_example = sweep_stale-locks backend no_faults 900 world

abbrev swept : World backend
swept = sweep_stale backend no_faults 900 world

abbrev failed : Submission ℕ
failed = record sub { status = judge_error; updated_at = 900 }

find-sweep_stale_example :
    ((is_unfinished sub.status ≡ true)
      × ((sub.updated_at + 300 < 900)
          × ((Table.find table swept.rows 9 ≡ some failed)
              × (Table.find table (sweep_stale backend no_faults 2000 swept).rows 9
                  ≡ some failed))))
    ⊎ (((is_unfinished sub.status ≡ false) ⊎ (900 ≤ sub.updated_at + 300))
        × (Table.find table swept.rows 9 ≡ some sub))
find-sweep_stale_example = find-sweep_stale backend no_faults 900 2000 9 sub world refl

known-requeue_lost_jobs_example :
    Jobs.known jobs (requeue_lost_jobs backend no_faults 100 world).queue 9 ≡ true
known-requeue_lost_jobs_example =
    known-requeue_lost_jobs backend no_faults 100 9 world refl refl (omega arith)
