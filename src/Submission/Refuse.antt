-- ===== src/Submission/Refuse.antt =====
-- What a refused attempt leaves behind: nothing that blocks or misleads.
use Prim.Native.String.{String}
use shikomi.Prelude.{ℕ, ◌≡◌, ◌≢◌, ◌⊎◌, false, Option, none, some}
use shikomi.Services.{Table}
use shikomi.Services.Redis.{Redis, inflight}
use shikomi.Queue.{holds}
use shikomi.Submission.{is_pending, judge_error, Submission, submit, Backend, World}
use shikomi.Submission.Create.{
  ApiError, Result, err, stored, Settings, Problem, Request, Faults, new_row,
}

module _ {D : Type 0} (b : Backend D) (settings : Settings) (problems : ℕ → Option Problem)
    (now sub_id : ℕ) (f : Faults b) (r : Request) where
  -- Nothing is left behind by the attempt: its lock is not held, and its row is absent or failed.
  pub record IsRefused (w : World b) : Type 0 where
    pub unlocked :
        holds sub_id (Redis.entry b.redis w.cache now (inflight r.user_id r.problem_id)) ≡ false
    pub row :
        (Table.find b.table w.rows sub_id ≡ none)
        ⊎ ((s : Submission D) × (Table.find b.table w.rows sub_id ≡ some s)
            × (s.status ≡ judge_error))

  -- The hypotheses: nobody acts in between, and the updates and releases go through.
  pub record IsCalm : Type 0 where
    pub quiet : (w : World b) → f.meanwhile w ≡ w
    pub marked : f.mark_fails ≡ false
    pub released : f.release_fails ≡ false
    pub not_stored : f.acquire ≢ stored

  abbrev failed_row : Submission D → Submission D
  failed_row s = record s { status = judge_error; updated_at = now }

  abbrev failed : World b → World b
  failed w = record w {
    rows = (Table.update b.table sub_id (λ s. is_pending s.status) failed_row w.rows).1;
  }

  -- The world once the row is written.
  abbrev written : String → World b → World b
  written language w = record w {
    rows = Table.insert b.table sub_id (new_row b settings problems now sub_id f r language) w.rows;
  }

  abbrev Free : World b → Type 0
  Free w =
      (r.mode ≡ submit)
      ⊎ (holds sub_id (Redis.entry b.redis w.cache now (inflight r.user_id r.problem_id)) ≡ false)

  abbrev Clean : Result × World b → Type 0
  Clean x = (e : ApiError) → x.0 ≡ err e → IsRefused x.1

  -- A world in which this attempt has no row and no lock yet.
  pub record IsFresh (w : World b) : Type 0 where
    pub absent : Table.find b.table w.rows sub_id ≡ none
    pub unheld :
        holds sub_id (Redis.entry b.redis w.cache now (inflight r.user_id r.problem_id)) ≡ false
