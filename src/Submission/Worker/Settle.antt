-- ===== src/Submission/Worker/Settle.antt =====
-- The row of a submission after its job (`judge_submission`).
use shikomi.Prelude.{
  ℕ, ◌≡◌, inl, inr, refl, Bool, true, false, Option, none, some, arith, ◌==◌, ==_iff, Bool-cases,
  ==_refl, if◌then◌else◌,
}
use shikomi.Services.{Table, revise}
use shikomi.Submission.{running, is_pending, is_unfinished, Submission, Mode, Backend, World}
use shikomi.Submission.Worker.{
  Ending, verdict, fault, cancelled, Problem, has_variant, finally_release, claim, fail_submission,
  record_fault, write_verdict, end_run, judge_claimed, when_problem, judge_submission,
}

-- The row is gone, or holds a verdict.
abbrev pub IsSettled : {D : Type 0} → Option (Submission D) → Type 0
IsSettled none = Unit
IsSettled (some s) = is_unfinished s.status ≡ false

abbrev pub EndsSettled : {D : Type 0} → Ending D → Type 0
EndsSettled (verdict v) = is_unfinished v.status ≡ false
EndsSettled fault = Unit
EndsSettled cancelled = Unit

module _ {D : Type 0} (b : Backend D) where
  update-IsSettled :
      (id : ℕ) (p : Submission D → Bool) (f : Submission D → Submission D) (w : World b)
      → ((s : Submission D) → p s ≡ true → is_unfinished (f s).status ≡ false)
      → ((s : Submission D) → p s ≡ false → is_unfinished s.status ≡ false)
      → IsSettled (Table.find b.table (Table.update b.table id p f w.rows).1 id)
  update-IsSettled id p f w changed kept =
      rw (Table.find-update b.table, ==_refl id) (cases (Table.find b.table w.rows id))
    where
      cases : (o : Option (Submission D)) → IsSettled (revise p f o)
      cases none = tt
      cases (some s) = elim (Bool-cases (p s)) [
        | inl t ↦ rw t (changed s t)
        | inr g ↦ rw g (kept s g)
      ]

  end_run-IsSettled :
      (now id : ℕ) (e : Ending D) (w : World b)
      → EndsSettled e
      → IsSettled (Table.find b.table (end_run b now id e w).rows id)
  unfolding write_verdict record_fault fail_submission
  end_run-IsSettled now id (verdict v) w h =
      update-IsSettled id _ _ w (λ s t. h) (λ s t. ground arith)
  end_run-IsSettled now id fault w h = update-IsSettled id _ _ w (λ s t. refl) (λ s t. ground arith)
  end_run-IsSettled now id cancelled w h = update-IsSettled id _ _ w (λ s t. refl) (λ s t. t)

  pub rows-finally_release :
      (now id : ℕ) (mode : Mode) (sub : Submission D) (w : World b)
      → (finally_release b now id mode sub w).rows ≡ w.rows
  unfolding finally_release
  rows-finally_release now id mode sub w = ground arith

  -- The claim succeeds on a pending row, which is then running, and fails on any other.
  pub claim-pending :
      (now id : ℕ) (s : Submission D) (w : World b)
      → Table.find b.table w.rows id ≡ some s
      → is_pending s.status ≡ true
      → ((claim b now id w).0 ≡ 1)
        × (Table.find b.table (claim b now id w).1.rows id
            ≡ some (record s { status = running; updated_at = now }))
  unfolding claim
  claim-pending now id s w e h = (
    rw (Table.count-update b.table, e, h) refl,
    rw (Table.find-update b.table, ==_refl id, e, h) refl,
  )

  claim-settled :
      (now id j : ℕ) (s : Submission D) (w : World b)
      → Table.find b.table w.rows id ≡ some s
      → is_pending s.status ≡ false
      → ((claim b now id w).0 ≡ 0)
        × (Table.find b.table (claim b now id w).1.rows j ≡ Table.find b.table w.rows j)
  unfolding claim
  claim-settled now id j s w e h = (
    rw (Table.count-update b.table, e, h) refl,
    rw (Table.find-update b.table) (same (id == j) refl),
  )
    where
      same :
          (t : Bool)
          → (id == j) ≡ t
          → (if t
              then revise
                  (λ r. is_pending r.status)
                  (λ r. record r { status = running; updated_at = now })
                  (Table.find b.table w.rows j)
              else Table.find b.table w.rows j)
            ≡ Table.find b.table w.rows j
      same true i =
          let at : Table.find b.table w.rows j ≡ some s = rw ((==_iff id j).0 i) at e in
          rw (at, h) refl
      same false i = refl

  module _ (problems : ℕ → Option Problem) (judge : Submission D → Ending D)
      (meanwhile : World b → World b) where
    judge_claimed-IsSettled :
        (now later id : ℕ) (sub : Submission D) (p : Problem) (w : World b)
        → EndsSettled (judge sub)
        → IsSettled (
            Table.find b.table
              (judge_claimed b problems judge meanwhile now later id sub p w).rows
              id)
    unfolding judge_claimed
    judge_claimed-IsSettled now later id sub p w h =
        elim (Bool-cases (has_variant p.languages sub.language)) [
          | inl t ↦ simp t (end_run-IsSettled later id (judge sub) (meanwhile w) h)
          | inr g ↦ simp g (end_run-IsSettled now id fault w tt)
        ]

    when_problem-IsSettled :
        (now later id : ℕ) (sub : Submission D) (o : Option Problem) (w : World b)
        → Table.find b.table w.rows id ≡ some sub
        → is_pending sub.status ≡ true
        → EndsSettled (judge sub)
        → IsSettled (
            Table.find b.table
              (when_problem b problems judge meanwhile now later id sub o w).rows
              id)
    when_problem-IsSettled now later id sub none w e h s = end_run-IsSettled now id fault w tt
    when_problem-IsSettled now later id sub (some p) w e h s =
        simp (claim-pending now id sub w e h).0
          (judge_claimed-IsSettled now later id sub p (claim b now id w).1 s)

    -- A pending row that is judged ends with a verdict or is gone, however the run ends: by a verdict,
    -- an exception or a cancellation, and whatever other processes do while it runs.
    pub judge_submission-IsSettled :
        (now later id : ℕ) (mode : Mode) (sub : Submission D) (w : World b)
        → Table.find b.table w.rows id ≡ some sub
        → is_pending sub.status ≡ true
        → EndsSettled (judge sub)
        → IsSettled (
            Table.find b.table
              (judge_submission b problems judge meanwhile now later id mode w).rows
              id)
    unfolding judge_submission
    judge_submission-IsSettled now later id mode sub w e h s =
        rw (e, rows-finally_release)
          (when_problem-IsSettled now later id sub (problems sub.problem_id) w e h s)

    pub judge_submission-settled :
        (now later id j : ℕ) (mode : Mode) (sub : Submission D) (p : Problem) (w : World b)
        → Table.find b.table w.rows id ≡ some sub
        → is_pending sub.status ≡ false
        → problems sub.problem_id ≡ some p
        → Table.find b.table
            (judge_submission b problems judge meanwhile now later id mode w).rows
            j
          ≡ Table.find b.table w.rows j
    unfolding judge_submission
    judge_submission-settled now later id j mode sub p w e h known =
        let c = claim-settled now id j sub w e h in rw (e, rows-finally_release, known, c.0) c.1
