-- ===== src/Tests/Submission.antt =====
-- An accepted attempt, and one whose enqueue fails after the job was stored.
use shikomi.Prelude.{ℕ, ◌≡◌, refl, true, false, Option, none, some, [], ◌∷◌}
use shikomi.Submission.{submit, Backend, World}
use shikomi.Submission.Create.{
  ok, Outcome, fine, Settings, Problem, Request, Faults, create_submission, write_and_enqueue,
  lock_and_write, fail_enqueue, release_lock, choose_language,
}
use shikomi.Submission.Accept.{IsAccepted, create_submission-ok}
use shikomi.Queue.{within_rate_limit, acquire_inflight}
use shikomi.Tests.Instances.{cache, table, jobs}

abbrev pub backend : Backend ℕ
backend = record { redis = cache; table = table; jobs = jobs }

abbrev pub empty : World backend
empty = record { cache = λ k. none; rows = ([], λ k. none); queue = [] }

abbrev settings : Settings
settings = record { max_code_bytes = 100; submit_rate_limit = 5; run_rate_limit = 9 }

abbrev problems : ℕ → Option Problem
problems n = some (record { is_published = true; languages = "python" ∷ "rust" ∷ [] })

abbrev faults : Outcome → Faults backend
faults o = record {
  rate = fine;
  acquire = fine;
  enqueue = o;
  commit_fails = false;
  mark_fails = false;
  release_fails = false;
  meanwhile = λ w. w;
}

abbrev request : Request
request = record {
  user_id = 3;
  problem_id = 4;
  code = "pass";
  mode = submit;
  language = some "rust";
}

ok-lem : (create_submission backend settings problems 60 9 (faults fine) request empty).0 ≡ ok 9
unfolding create_submission write_and_enqueue lock_and_write fail_enqueue release_lock
    choose_language within_rate_limit acquire_inflight
ok-lem = refl

create_submission-ok_example :
    IsAccepted backend settings problems 60 9
      (faults fine)
      request
      9
      (create_submission backend settings problems 60 9 (faults fine) request empty).1
create_submission-ok_example =
    create_submission-ok backend settings problems 60 9 (faults fine) request empty 9 ok-lem
