-- ===== src/Tests/Queue.antt =====
-- The lock and the limits at short sequences of calls.
use shikomi.Prelude.{ℕ, ◌≡◌, refl, true, false, none, List, [], ◌∷◌, length, min, arith, All}
use shikomi.Queue.{within_rate_limit}
use shikomi.Queue.Lock.{
  LockCall, acquire, release, lock_step, lock_run, lock_run-acquire, acquire-release,
}
use shikomi.Queue.Limits.{limit_run, InMinute, first_ones, passed, limit_run-fresh}
use shikomi.Tests.Instances.{cache, Cache}

abbrev nothing : Cache
nothing k = none

-- Owner 2 tries twice, and once to free the lock of owner 1.
abbrev rivals : List (ℕ × LockCall)
rivals = (10, acquire 2) ∷ (20, release 2) ∷ (119, acquire 2) ∷ []

taken : (lock_step cache 7 8 0 (acquire 1) nothing).0 ≡ true
unfolding lock_step
taken = refl

lock_run-acquire_example :
    All (λ r. r ≡ false) (lock_run cache 7 8 rivals (lock_step cache 7 8 0 (acquire 1) nothing).1)
lock_run-acquire_example = lock_run-acquire cache 7 8 0 1 rivals nothing taken (omega arith)

acquire-release_example :
    lock_run cache 7 8
      ((30, release 1) ∷ (30, acquire 2) ∷ [])
      (lock_step cache 7 8 0 (acquire 1) nothing).1
    ≡ true ∷ true ∷ []
acquire-release_example =
    acquire-release cache 7 8 0 30 1 2 nothing taken (omega arith) (omega arith)

abbrev calls : List ℕ
calls = 60 ∷ 61 ∷ 90 ∷ 119 ∷ []

calls-InMinute : InMinute 1 60 calls
calls-InMinute = omega arith

limit_run-fresh_example :
    (limit_run cache 7 "submit" 3 calls nothing ≡ first_ones 3 0 calls)
    × (passed (limit_run cache 7 "submit" 3 calls nothing) ≡ min 3 (length calls))
limit_run-fresh_example = limit_run-fresh cache 1 60 7 3 "submit" calls nothing refl calls-InMinute

the_fourth_fails : limit_run cache 7 "submit" 3 calls nothing ≡ true ∷ true ∷ true ∷ false ∷ []
unfolding limit_run within_rate_limit
the_fourth_fails = refl

-- After the time to live the lock can be taken by another.
expired_lock :
    lock_run cache 7 8 ((0, acquire 1) ∷ (120, acquire 2) ∷ []) nothing ≡ true ∷ true ∷ []
unfolding lock_run lock_step
expired_lock = refl
