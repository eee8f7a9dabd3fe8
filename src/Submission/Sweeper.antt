-- ===== src/Submission/Sweeper.antt =====
-- `sweep_stale` and `_requeue_lost_jobs` of backend/worker/sweeper.py, on the submissions; the
-- tokens that it prunes are in Auth. Redis may fail at any call; each failure is caught.
pub mod Stale
pub mod Requeue
use shikomi.Prelude.{
  ℕ, ◌+◌, Bool, true, false, not, ◌&&◌, ltb, Option, none, some, List, [], ◌∷◌, take, if◌then◌else◌,
}
use shikomi.Services.{Table, Jobs}
use shikomi.Queue.{release_inflight}
use shikomi.Submission.{
  Mode, submit, run, pending, judge_error, is_pending, is_unfinished, Submission, Backend, World,
}

-- STALE_AFTER and REENQUEUE_AFTER in seconds, and REENQUEUE_BATCH
abbrev pub stale_after : ℕ
stale_after = 300

abbrev pub reenqueue_after : ℕ
reenqueue_after = 30

abbrev pub reenqueue_batch : ℕ
reenqueue_batch = 1000

abbrev pub is_stale : {D : Type 0} → ℕ → Submission D → Bool
is_stale now s = is_unfinished s.status && ltb (s.updated_at + stale_after) now

abbrev pub is_waiting : {D : Type 0} → ℕ → Submission D → Bool
is_waiting now s = is_pending s.status && ltb (s.updated_at + reenqueue_after) now

abbrev pub fail_row : {D : Type 0} → ℕ → Submission D → Submission D
fail_row now s = record s { status = judge_error; updated_at = now }

-- The calls of Redis that raise.
pub record Faults : Type 0 where
  pub release_fails : ℕ → Bool
  pub check_fails : Bool
  pub enqueue_fails : ℕ → Bool

module _ {D : Type 0} (b : Backend D) (f : Faults) (now : ℕ) where
  -- Freeing the lock of one swept row, as `RETURNING` gave it.
  abbrev pub release_row : ℕ → Option (Submission D) → World b → World b
  release_row id none w = w
  release_row id (some s) w =
      if f.release_fails id
      then w
      else record w { cache = (release_inflight b.redis now s.user_id s.problem_id id w.cache).1 }

  unfoldable pub release_rows : Table.State b.table → List ℕ → World b → World b
  release_rows rows [] w = w
  release_rows rows (id ∷ ids) w =
      release_rows rows ids (release_row id (Table.find b.table rows id) w)

  -- `UPDATE ... RETURNING`, then the locks of the rows that it returned.
  unfoldable pub fail_stale : World b → World b
  fail_stale w =
      release_rows w.rows (Table.select b.table (is_stale now) w.rows)
        (record w { rows = Table.update_all b.table (is_stale now) (fail_row now) w.rows })

  -- `missing_judge_jobs`: the ids with no job, in order.
  unfoldable pub missing_judge_jobs : Jobs.State b.jobs → List ℕ → List ℕ
  missing_judge_jobs q [] = []
  missing_judge_jobs q (id ∷ ids) =
      let rest = missing_judge_jobs q ids in if Jobs.known b.jobs q id then rest else id ∷ rest

  -- `"run" if is_run[sid] else "submit"`; every id that is asked for is a row's.
  abbrev pub mode_of : Option (Submission D) → Mode
  mode_of none = submit
  mode_of (some s) = if s.is_run then run else submit

  -- The jobs one after another, each with its row's mode.
  unfoldable pub enqueue_all : Table.State b.table → List ℕ → Jobs.State b.jobs → Jobs.State b.jobs
  enqueue_all rows [] q = q
  enqueue_all rows (id ∷ ids) q = enqueue_all rows ids (
      if f.enqueue_fails id
      then q
      else Jobs.enqueue b.jobs id (mode_of (Table.find b.table rows id)) q)

  unfoldable pub requeue_lost_jobs : World b → World b
  requeue_lost_jobs w =
      let ids = take reenqueue_batch (Table.select b.table (is_waiting now) w.rows) in
      if f.check_fails
      then w
      else record w { queue = enqueue_all w.rows (missing_judge_jobs w.queue ids) w.queue }

  unfoldable pub sweep_stale : World b → World b
  sweep_stale w = requeue_lost_jobs (fail_stale w)
