-- ===== src/Submission/Sweeper/Requeue.antt =====
-- What the sweep does to the job queue.
use shikomi.Prelude.{
  ℕ, ◌≡◌, ◌≤◌, refl, inl, inr, true, false, ◌&&◌, ◌||◌, ◌==◌, not, List, [], ◌∷◌, take, length,
  arith, ==_refl, if◌then◌else◌, Bool-cases, ==_iff, suc, zero,
}
use shikomi.Services.{Table, Jobs, among, matched}
use shikomi.Submission.{Backend, World}
use shikomi.Submission.Sweeper.{
  Faults, is_waiting, missing_judge_jobs, mode_of, enqueue_all, requeue_lost_jobs, reenqueue_batch,
}

among-take : (n j : ℕ) (ks : List ℕ) → among j (take n ks) ≡ true → among j ks ≡ true
among-take zero j ks h = ground arith
among-take (suc n) j [] h = ground arith
among-take (suc n) j (k ∷ ks) h = ground (arith, among-take n j ks)

take-all : (n : ℕ) (ks : List ℕ) → length ks ≤ n → take n ks ≡ ks
take-all zero [] h = refl
take-all zero (k ∷ ks) h = absurd (omega arith)
take-all (suc n) [] h = refl
take-all (suc n) (k ∷ ks) h = rw (take-all n ks (omega arith))

module _ {D : Type 0} (b : Backend D) (f : Faults) (now : ℕ) where
  among-missing :
      (q : Jobs.State b.jobs) (j : ℕ) (ids : List ℕ)
      → among j (missing_judge_jobs b f now q ids) ≡ (among j ids && not (Jobs.known b.jobs q j))
  unfolding missing_judge_jobs
  among-missing q j [] = refl
  among-missing q j (id ∷ ids) = elim (Bool-cases (id == j)) [
    | inl t ↦
        let same : id ≡ j = (==_iff id j).0 t in rw same (ground (arith, among-missing q j ids))
    | inr g ↦ ground (arith, among-missing q j ids)
  ]

  -- A job is known afterwards if it was before, or if it is listed and its enqueue went through.
  known-enqueue_all :
      (rows : Table.State b.table) (j : ℕ) (ids : List ℕ) (q : Jobs.State b.jobs)
      → Jobs.known b.jobs (enqueue_all b f now rows ids q) j
        ≡ (Jobs.known b.jobs q j || (among j ids && not (f.enqueue_fails j)))
  unfolding enqueue_all
  known-enqueue_all rows j [] q = ground arith
  known-enqueue_all rows j (id ∷ ids) q =
      let m = mode_of b f now (Table.find b.table rows id) in
      rw
        (known-enqueue_all rows j ids
          (if f.enqueue_fails id then q else Jobs.enqueue b.jobs id m q))
        (elim (Bool-cases (id == j)) [
          | inl t ↦
              let same : id ≡ j = (==_iff id j).0 t in
              rw same (ground (arith, ==_refl j, Jobs.known-enqueue b.jobs j j m q))
          | inr g ↦ ground (arith, g, Jobs.known-enqueue b.jobs id j m q)
        ])

  -- With no fault of Redis and no more waiting rows than one batch, every waiting row has a job after
  -- the sweep, and no other row got one.
  pub known-requeue_lost_jobs :
      (j : ℕ) (w : World b)
      → f.check_fails ≡ false
      → f.enqueue_fails j ≡ false
      → length (Table.select b.table (is_waiting now) w.rows) ≤ reenqueue_batch
      → Jobs.known b.jobs (requeue_lost_jobs b f now w).queue j ≡ (
          Jobs.known b.jobs w.queue j
          || matched (is_waiting now) (Table.find b.table w.rows j) == 1)
  unfolding requeue_lost_jobs
  known-requeue_lost_jobs j w ok sent few = simp ok (
      rw
        (
          take-all reenqueue_batch (Table.select b.table (is_waiting now) w.rows) few,
          known-enqueue_all w.rows j
              (missing_judge_jobs b f now w.queue (Table.select b.table (is_waiting now) w.rows))
              w.queue,
          among-missing w.queue j (Table.select b.table (is_waiting now) w.rows),
          Table.mem-select b.table j (is_waiting now) w.rows,
        )
        (ground (arith, sent)))
