-- ===== src/Submission/Worker/Once.antt =====
-- A job that is delivered twice, and the lock after a job.
use shikomi.Prelude.{
  ℕ, ◌≡◌, ◌≢◌, refl, sym, ap, ◌∙◌, inl, inr, Bool, true, false, Option, some, arith, ◌==◌,
  Bool-cases, if◌then◌else◌,
}
use shikomi.Services.{Table, revise}
use shikomi.Services.Redis.{Redis, Key, inflight, key_eq_refl, Entry}
use shikomi.Queue.{release_inflight, holds}
use shikomi.Submission.{running, is_pending, Submission, Mode, submit, Backend, World}
use shikomi.Submission.Worker.{
  Ending, verdict, fault, cancelled, Problem, has_variant, finally_release, claim, fail_submission,
  record_fault, write_verdict, end_run, judge_claimed, when_problem, judge_submission,
}
use shikomi.Submission.Worker.Settle.{rows-finally_release, claim-pending, judge_submission-settled}

module _ {D : Type 0} (b : Backend D) where
  update_congr :
      (id : ℕ) (p : Submission D → Bool) (f : Submission D → Submission D) (w w' : World b)
      → Table.find b.table w.rows id ≡ Table.find b.table w'.rows id
      → Table.find b.table (Table.update b.table id p f w.rows).1 id
        ≡ Table.find b.table (Table.update b.table id p f w'.rows).1 id
  update_congr id p f w w' e =
      Table.find-update b.table id id p f w.rows
      ∙ ap (λ o. if id == id then revise p f o else o) e
      ∙ sym (Table.find-update b.table id id p f w'.rows)

  -- What is written of an ending hangs only on the row.
  end_run_congr :
      (later id : ℕ) (e : Ending D) (w w' : World b)
      → Table.find b.table w.rows id ≡ Table.find b.table w'.rows id
      → Table.find b.table (end_run b later id e w).rows id
        ≡ Table.find b.table (end_run b later id e w').rows id
  unfolding write_verdict record_fault fail_submission
  end_run_congr later id (verdict v) w w' = update_congr id _ _ w w'
  end_run_congr later id fault w w' = update_congr id _ _ w w'
  end_run_congr later id cancelled w w' = update_congr id _ _ w w'

  module _ (problems : ℕ → Option Problem) (judge : Submission D → Ending D) where
    judge_claimed_congr :
        (meanwhile : World b → World b) (now later id : ℕ) (sub : Submission D) (p : Problem)
        (w : World b)
        → Table.find b.table (meanwhile w).rows id ≡ Table.find b.table w.rows id
        → Table.find b.table (judge_claimed b problems judge meanwhile now later id sub p w).rows id
          ≡ Table.find b.table
              (judge_claimed b problems judge (λ v. v) now later id sub p w).rows
              id
    unfolding judge_claimed
    judge_claimed_congr meanwhile now later id sub p w e =
        elim (Bool-cases (has_variant p.languages sub.language)) [
          | inl t ↦ simp t (end_run_congr later id (judge sub) (meanwhile w) w e)
          | inr g ↦ simp g
        ]

    -- A second delivery of a job while the first one runs, in either mode and with any result of its
    -- own, makes no difference to the row: the first delivery alone decides it.
    pub judge_submission_once :
        (judge' : Submission D → Ending D) (meanwhile : World b → World b)
        (now later now' later' id : ℕ) (mode mode' : Mode) (sub : Submission D) (p : Problem)
        (w : World b)
        → Table.find b.table w.rows id ≡ some sub
        → is_pending sub.status ≡ true
        → problems sub.problem_id ≡ some p
        → Table.find b.table
            (judge_submission b problems judge
              (judge_submission b problems judge' meanwhile now' later' id mode')
              now
              later
              id
              mode
              w).rows
            id
          ≡ Table.find b.table
              (judge_submission b problems judge (λ v. v) now later id mode w).rows
              id
    unfolding judge_submission
    judge_submission_once judge' meanwhile now later now' later' id mode mode' sub p w e h known =
        let c = claim-pending b now id sub w e h in
        rw (e, rows-finally_release, rows-finally_release, known, c.0)
          (judge_claimed_congr (judge_submission b problems judge' meanwhile now' later' id mode')
            now later id sub p (claim b now id w).1
            (judge_submission-settled b problems judge' meanwhile now' later' id id mode'
              (record sub { status = running; updated_at = now }) p (claim b now id w).1 c.1 refl
              known))

    -- After a submit was judged, the lock is not held for it, and a lock that another submission held
    -- when the job ended is still held as it was.
    pub judge_submission-lock :
        (meanwhile : World b → World b) (now later id : ℕ) (sub : Submission D) (w : World b)
        → Table.find b.table w.rows id ≡ some sub
        → let k = inflight sub.user_id sub.problem_id in
          let before =
            when_problem b problems judge meanwhile now later id sub (problems sub.problem_id) w in
          let after = judge_submission b problems judge meanwhile now later id submit w in
          (holds id (Redis.entry b.redis after.cache later k) ≡ false)
          × ((o : Entry)
              → Redis.entry b.redis before.cache later k ≡ some o
              → o.value ≢ id
              → Redis.entry b.redis after.cache later k ≡ some o)
    unfolding judge_submission finally_release release_inflight
    judge_submission-lock meanwhile now later id sub w e =
        let k : Key = inflight sub.user_id sub.problem_id in
        let before : World b =
          when_problem b problems judge meanwhile now later id sub (problems sub.problem_id) w in
        rw e (
          ground (arith, key_eq_refl k, Redis.entry-delete b.redis before.cache later k k),
          λ o held other. ground (arith, held, other),
        )
