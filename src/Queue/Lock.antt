-- ===== src/Queue/Lock.antt =====
-- The in-flight lock: one submission of a user to a problem at a time.
use shikomi.Prelude.{
  ℕ, ◌+◌, ◌≤◌, ◌<◌, ◌≡◌, ◌≢◌, Bool, true, false, List, [], ◌∷◌, some, arith, All, ==_refl, none,
  ◌==◌, ◌&&◌, if◌then◌else◌,
}
use shikomi.Services.Redis.{Redis, Key, inflight, key_eq_refl}
use shikomi.Queue.{acquire_inflight, release_inflight, inflight_ttl_seconds, holds}

-- What a caller does to the lock: take it as an owner, or give it back as one.
pub data LockCall : Type 0 where
  acquire release : ℕ → LockCall

module _ (redis : Redis) (user problem : ℕ) where
  open redis use {Store, entry}

  unfoldable pub lock_step : ℕ → LockCall → Store → Bool × Store
  unfolding acquire_inflight release_inflight
  lock_step now (acquire owner) s = acquire_inflight redis now user problem owner s
  lock_step now (release owner) s = release_inflight redis now user problem owner s

  -- Calls at given times, with their results.
  unfoldable pub lock_run : List (ℕ × LockCall) → Store → List Bool
  unfolding lock_step
  lock_run [] s = []
  lock_run ((now, call) ∷ calls) s =
      (lock_step now call s).0 ∷ lock_run calls (lock_step now call s).1

  abbrev pub Held : ℕ → ℕ → ℕ → Store → Type 0
  Held now owner until s =
      entry s now (inflight user problem) ≡ some (record { value = owner; expires = some until })

-- The call does not give the lock back as this owner.
abbrev pub Keeps : ℕ → LockCall → Type 0
Keeps owner (acquire o) = Unit
Keeps owner (release o) = o ≢ owner

-- Calls in the order of time from `now` on, before `until`, none of which is the owner's release.
abbrev pub Meanwhile : ℕ → ℕ → ℕ → List (ℕ × LockCall) → Type 0
Meanwhile owner now until [] = Unit
Meanwhile owner now until ((t, call) ∷ calls) =
    (now ≤ t) × (t < until) × Keeps owner call × Meanwhile owner t until calls

module _ (redis : Redis) (user problem : ℕ) where
  open redis use {Store, entry}

  Held-later :
      (now t owner until : ℕ) (s : Store)
      → now ≤ t
      → t < until
      → Held redis user problem now owner until s
      → Held redis user problem t owner until s
  Held-later now t owner until s le lt h =
      rw (redis.entry-later s now t (inflight user problem) le, h) (ground arith)

  lock_step-Held :
      (now owner until : ℕ) (call : LockCall) (s : Store)
      → now < until
      → Keeps owner call
      → Held redis user problem now owner until s
      → ((lock_step redis user problem now call s).0 ≡ false)
        × Held redis user problem now owner until (lock_step redis user problem now call s).1
  unfolding lock_step
  lock_step-Held now owner until (acquire o) s lt k h = ground (
    arith,
    redis.set_nx_ex_lem s now o inflight_ttl_seconds (inflight user problem),
    redis.entry-set_nx_ex s now o inflight_ttl_seconds (inflight user problem)
        (inflight user problem),
  )
  lock_step-Held now owner until (release o) s lt k h = ground arith

  lock_run-Held :
      (now owner until : ℕ) (calls : List (ℕ × LockCall)) (s : Store)
      → now < until
      → Held redis user problem now owner until s
      → Meanwhile owner now until calls
      → All (λ r. r ≡ false) (lock_run redis user problem calls s)
  unfolding lock_run
  lock_run-Held now owner until [] s lt h m = tt
  lock_run-Held now owner until ((t, call) ∷ calls) s lt h (le, before, k, m) =
      let held = Held-later now t owner until s le before h in
      let done = lock_step-Held t owner until call s before k held in
      (
        done.0,
        lock_run-Held t owner until calls (lock_step redis user problem t call s).1 before done.1 m,
      )

  -- A lock that could be taken is held by its taker for the whole time to live.
  pub acquire_inflight-true :
      (now owner : ℕ) (s : Store)
      → (acquire_inflight redis now user problem owner s).0 ≡ true
      → entry (acquire_inflight redis now user problem owner s).1 now (inflight user problem)
        ≡ some (record { value = owner; expires = some (now + inflight_ttl_seconds) })
  unfolding acquire_inflight
  acquire_inflight-true now owner s e =
      let k : Key = inflight user problem in
      ground (
        arith,
        redis.set_nx_ex_lem s now owner inflight_ttl_seconds k,
        redis.entry-set_nx_ex s now owner inflight_ttl_seconds k k,
        redis.entry-set_ex s now owner inflight_ttl_seconds k k,
        key_eq_refl k,
      )

  -- A lock that could not be taken is left as it was.
  pub acquire_inflight-false :
      (now owner : ℕ) (s : Store) (j : Key)
      → (acquire_inflight redis now user problem owner s).0 ≡ false
      → entry (acquire_inflight redis now user problem owner s).1 now j ≡ entry s now j
  unfolding acquire_inflight
  acquire_inflight-false now owner s j e =
      let k : Key = inflight user problem in
      ground (
        arith,
        redis.set_nx_ex_lem s now owner inflight_ttl_seconds k,
        redis.entry-set_nx_ex s now owner inflight_ttl_seconds k j,
      )

  -- A release removes the lock of this user and problem if the caller holds it, and nothing else.
  pub entry-release_inflight :
      (now owner u p : ℕ) (s : Store)
      → entry (release_inflight redis now user problem owner s).1 now (inflight u p) ≡ (
          if (user == u && problem == p) && holds owner (entry s now (inflight u p))
          then none
          else entry s now (inflight u p))
  unfolding release_inflight
  entry-release_inflight now owner u p s =
      ground (arith, redis.entry-delete s now (inflight user problem) (inflight u p))

  acquire-Held :
      (now owner : ℕ) (s : Store)
      → (lock_step redis user problem now (acquire owner) s).0 ≡ true
      → Held redis user problem now owner
          (now + inflight_ttl_seconds)
          (lock_step redis user problem now (acquire owner) s).1
  unfolding lock_step
  acquire-Held = acquire_inflight-true

  -- Once an owner has taken the lock, every other call on it fails until the owner gives it back or
  -- 120 seconds have passed: nobody else takes it, and nobody else's release removes it.
  pub lock_run-acquire :
      (now owner : ℕ) (calls : List (ℕ × LockCall)) (s : Store)
      → (lock_step redis user problem now (acquire owner) s).0 ≡ true
      → Meanwhile owner now (now + inflight_ttl_seconds) calls
      → All
          (λ r. r ≡ false)
          (lock_run redis user problem calls (lock_step redis user problem now (acquire owner) s).1)
  lock_run-acquire now owner calls s e m =
      lock_run-Held now owner (now + inflight_ttl_seconds) calls
        (lock_step redis user problem now (acquire owner) s).1 (omega arith)
        (acquire-Held now owner s e) m

  -- The owner's release inside the 120 seconds succeeds, and the lock can be taken again.
  pub acquire-release :
      (now t owner next : ℕ) (s : Store)
      → (lock_step redis user problem now (acquire owner) s).0 ≡ true
      → now ≤ t
      → t < now + inflight_ttl_seconds
      → lock_run redis user problem
          ((t, release owner) ∷ (t, acquire next) ∷ [])
          (lock_step redis user problem now (acquire owner) s).1
        ≡ true ∷ true ∷ []
  unfolding lock_run
  acquire-release now t owner next s e le lt =
      let s' = (lock_step redis user problem now (acquire owner) s).1 in
      let k : Key = inflight user problem in
      let held =
        Held-later now t owner (now + inflight_ttl_seconds) s' le lt (acquire-Held now owner s e) in
      ground (
        arith,
        held,
        redis.entry-delete s' t k k,
        redis.set_nx_ex_lem (redis.delete t k s') t next inflight_ttl_seconds k,
        key_eq_refl k,
        ==_refl owner,
      )
