-- ===== src/Submission/Sweeper/Stale.antt =====
-- What the sweep does to rows and locks.
use shikomi.Prelude.{
  ℕ, ◌+◌, ◌<◌, ◌≤◌, ◌≡◌, refl, ◌∙◌, inl, inr, ◌⊎◌, Bool, true, false, ◌==◌, Option, none, some,
  List, [], ◌∷◌, arith, Bool-cases, ==_refl, ==_iff,
}
use shikomi.Services.{Table, among, matched, revise}
use shikomi.Services.Redis.{Redis, Key, inflight, Entry}
use shikomi.Queue.{holds}
use shikomi.Queue.Lock.{entry-release_inflight}
use shikomi.Submission.{judge_error, is_unfinished, Submission, Backend, World}
use shikomi.Submission.Sweeper.{
  Faults, is_stale, fail_row, release_row, release_rows, fail_stale, requeue_lost_jobs, sweep_stale,
}

module _ {D : Type 0} (b : Backend D) (f : Faults) (now : ℕ) where
  abbrev lock : World b → Key → Option Entry
  lock w k = Redis.entry b.redis w.cache now k

  rows-release_row :
      (id : ℕ) (o : Option (Submission D)) (w : World b)
      → (release_row b f now id o w).rows ≡ w.rows
  rows-release_row id none w = refl
  rows-release_row id (some s) w = ground arith

  rows-release_rows :
      (rows : Table.State b.table) (ids : List ℕ) (w : World b)
      → (release_rows b f now rows ids w).rows ≡ w.rows
  unfolding release_rows
  rows-release_rows rows [] w = refl
  rows-release_rows rows (id ∷ ids) w =
      rows-release_rows rows ids (release_row b f now id (Table.find b.table rows id) w)
      ∙ rows-release_row id (Table.find b.table rows id) w

  rows-sweep_stale :
      (w : World b)
      → (sweep_stale b f now w).rows ≡ Table.update_all b.table (is_stale now) (fail_row now) w.rows
  unfolding sweep_stale requeue_lost_jobs fail_stale
  rows-sweep_stale w = ground (
    arith,
    rows-release_rows w.rows (Table.select b.table (is_stale now) w.rows)
        (record w { rows = Table.update_all b.table (is_stale now) (fail_row now) w.rows }),
  )

  find-sweep :
      (id : ℕ) (w : World b)
      → Table.find b.table (sweep_stale b f now w).rows id
        ≡ revise (is_stale now) (fail_row now) (Table.find b.table w.rows id)
  find-sweep id w = rw (rows-sweep_stale w, Table.find-update_all b.table) refl

  -- One release frees the lock of its own submission and no other.
  release_row-lock :
      (id u p : ℕ) (o : Option (Submission D)) (w : World b)
      → (lock (release_row b f now id o w) (inflight u p) ≡ lock w (inflight u p))
        ⊎ ((lock (release_row b f now id o w) (inflight u p) ≡ none)
            × (holds id (lock w (inflight u p)) ≡ true))
  release_row-lock id u p none w = inl refl
  release_row-lock id u p (some s) w =
      ground (arith, entry-release_inflight b.redis s.user_id s.problem_id now id u p w.cache)

  release_row-frees :
      (id : ℕ) (s : Submission D) (w : World b)
      → f.release_fails id ≡ false
      → holds id (lock (release_row b f now id (some s) w) (inflight s.user_id s.problem_id))
        ≡ false
  release_row-frees id s w h = ground (
    arith,
    entry-release_inflight b.redis s.user_id s.problem_id now id s.user_id s.problem_id w.cache,
    ==_refl s.user_id,
    ==_refl s.problem_id,
  )

  -- What is free of an owner stays so while other locks are released.
  release_rows-holds :
      (rows : Table.State b.table) (ids : List ℕ) (x u p : ℕ) (w : World b)
      → holds x (lock w (inflight u p)) ≡ false
      → holds x (lock (release_rows b f now rows ids w) (inflight u p)) ≡ false
  unfolding release_rows
  release_rows-holds rows [] x u p w h = h
  release_rows-holds rows (id ∷ ids) x u p w h =
      let o = Table.find b.table rows id in
      release_rows-holds rows ids x u p (release_row b f now id o w)
        (ground (arith, release_row-lock id u p o w))

  release_rows-frees :
      (rows : Table.State b.table) (ids : List ℕ) (id : ℕ) (s : Submission D) (w : World b)
      → Table.find b.table rows id ≡ some s
      → f.release_fails id ≡ false
      → among id ids ≡ true
      → holds id (lock (release_rows b f now rows ids w) (inflight s.user_id s.problem_id)) ≡ false
  unfolding release_rows
  release_rows-frees rows [] id s w e h m = ground arith
  release_rows-frees rows (i ∷ ids) id s w e h m = elim (Bool-cases (i == id)) [
    | inl t ↦
        let same : Table.find b.table rows i ≡ some s = rw ((==_iff i id).0 t) e in
        rw (release_rows, same)
          (release_rows-holds rows ids id s.user_id s.problem_id (release_row b f now i (some s) w)
            (rw ((==_iff i id).0 t) (release_row-frees id s w h)))
    | inr g ↦
        release_rows-frees rows ids id s (release_row b f now i (Table.find b.table rows i) w) e h
          (ground arith)
  ]

  -- A lock whose holder is not among the swept rows is left as it is.
  release_rows-keeps :
      (rows : Table.State b.table) (ids : List ℕ) (u p : ℕ) (e : Entry) (w : World b)
      → lock w (inflight u p) ≡ some e
      → among e.value ids ≡ false
      → lock (release_rows b f now rows ids w) (inflight u p) ≡ some e
  unfolding release_rows
  release_rows-keeps rows [] u p e w h m = h
  release_rows-keeps rows (id ∷ ids) u p e w h m =
      let o = Table.find b.table rows id in
      release_rows-keeps rows ids u p e (release_row b f now id o w)
        (ground (arith, release_row-lock id u p o w, ==_iff e.value id)) (ground arith)

  cache-requeue : (w : World b) → (requeue_lost_jobs b f now w).cache ≡ w.cache
  unfolding requeue_lost_jobs
  cache-requeue w = ground arith

  -- After the sweep no swept submission holds its lock, unless its release failed; a lock that any
  -- other submission holds is untouched.
  pub sweep_stale-locks :
      (w : World b)
      → ((id : ℕ) (s : Submission D)
          → Table.find b.table w.rows id ≡ some s
          → is_stale now s ≡ true
          → f.release_fails id ≡ false
          → holds id (lock (sweep_stale b f now w) (inflight s.user_id s.problem_id)) ≡ false)
        × ((u p : ℕ) (e : Entry)
            → lock w (inflight u p) ≡ some e
            → matched (is_stale now) (Table.find b.table w.rows e.value) ≡ 0
            → lock (sweep_stale b f now w) (inflight u p) ≡ some e)
  unfolding sweep_stale fail_stale
  sweep_stale-locks w =
      let w' : World b = record w {
        rows = Table.update_all b.table (is_stale now) (fail_row now) w.rows;
      } in
      let ids = Table.select b.table (is_stale now) w.rows in
      (
        λ id s e t h.
            rw cache-requeue (
              release_rows-frees w.rows ids id s w' e h (rw (Table.mem-select b.table, e, t) refl)),
        λ u p e h m.
            rw cache-requeue
              (release_rows-keeps w.rows ids u p e w' h (rw (Table.mem-select b.table, m) refl)),
      )

module _ {D : Type 0} (b : Backend D) (f : Faults) where
  -- A row that is pending or running and was last updated more than 300 seconds ago is failed, and a
  -- later sweep does not touch it again; a row that is settled, or was updated within the 300 seconds,
  -- stays as it is.
  pub find-sweep_stale :
      (now later id : ℕ) (s : Submission D) (w : World b)
      → Table.find b.table w.rows id ≡ some s
      → let failed = record s { status = judge_error; updated_at = now } in
        let swept = sweep_stale b f now w in
        ((is_unfinished s.status ≡ true)
          × ((s.updated_at + 300 < now)
              × ((Table.find b.table swept.rows id ≡ some failed)
                  × (Table.find b.table (sweep_stale b f later swept).rows id ≡ some failed))))
        ⊎ (((is_unfinished s.status ≡ false) ⊎ (now ≤ s.updated_at + 300))
            × (Table.find b.table swept.rows id ≡ some s))
  find-sweep_stale now later id s w e = elim (Bool-cases (is_stale now s)) [
    | inl t ↦
        let once : Table.find b.table (sweep_stale b f now w).rows id ≡ some (fail_row now s) =
          rw (find-sweep b f now, e, t) refl in
        inl (ground (arith, t), (ground (arith, t), (once, rw (find-sweep b f later, once) refl)))
    | inr g ↦ inr (kept (is_unfinished s.status) refl g, rw (find-sweep b f now, e, g) refl)
  ]
    where
      kept :
          (u : Bool)
          → is_unfinished s.status ≡ u
          → is_stale now s ≡ false
          → (is_unfinished s.status ≡ false) ⊎ (now ≤ s.updated_at + 300)
      kept true h g = inr (ground (arith, h, g))
      kept false h g = inl h
