-- ===== src/Watchdog.antt =====
-- `check_accounts_queue` of backend/worker/watchdog.py. `age` is that of the oldest job, `address` says
-- whether there is an address to mail to, and `delivered` whether the mail goes out.
use Prim.Native.String.{String}
use shikomi.Prelude.{
  ℕ, ◌≡◌, refl, Bool, true, false, not, ◌&&◌, ltb, Option, none, some, if◌then◌else◌, is_some,
  arith, Bool-cases, inl, inr,
}
use shikomi.Services.Redis.{Redis, Key, alert, key_eq_refl}
use shikomi.Queue.{claim_alert, release_alert}

abbrev accounts_alert : String
accounts_alert = "accounts-queue-backlog"

abbrev pub is_healthy : ℕ → Option ℕ → Bool
is_healthy stale none = true
is_healthy stale (some age) = ltb age stale

module _ (redis : Redis) (stale cooldown : ℕ) where
  abbrev pub when_claimed : ℕ → Bool → Bool → Bool × Redis.Store redis → Bool × Redis.Store redis
  when_claimed now address delivered (false, s) = (false, s)
  when_claimed now address delivered (true, s) = (
    true,
    if address then (if delivered then s else release_alert redis now accounts_alert s) else s,
  )

  -- Whether an alert was raised, and the store.
  unfoldable pub check_accounts_queue :
      ℕ → Option ℕ → Bool → Bool → Redis.Store redis → Bool × Redis.Store redis
  check_accounts_queue now age address delivered s =
      if is_healthy stale age
      then (false, release_alert redis now accounts_alert s)
      else when_claimed now address delivered (claim_alert redis now accounts_alert cooldown s)

  abbrev pub cooling : ℕ → Redis.Store redis → Bool
  cooling now s = is_some (Redis.entry redis s now (alert accounts_alert))

  -- An alert is raised exactly when the queue is stale and no cooldown runs. Afterwards the next check
  -- may raise one if the queue was healthy or the mail was not delivered, and a cooldown that ran
  -- before a stale check runs on.
  pub check_accounts_queue-cooldown :
      (now : ℕ) (age : Option ℕ) (address delivered : Bool) (s : Redis.Store redis)
      → let after = check_accounts_queue now age address delivered s in
        (after.0 ≡ (not (is_healthy stale age) && not (cooling now s)))
        × ((is_healthy stale age ≡ true → cooling now after.1 ≡ false)
            × ((after.0 ≡ true → address ≡ true → delivered ≡ false → cooling now after.1 ≡ false)
                × (is_healthy stale age ≡ false
                    → cooling now s ≡ true
                    → cooling now after.1 ≡ true)))
  unfolding check_accounts_queue claim_alert release_alert
  check_accounts_queue-cooldown now age address delivered s =
      let k : Key = alert accounts_alert in
      elim (Bool-cases (is_healthy stale age)) [
        | inl e ↦ simp e (
          refl,
          (
            λ t. ground (arith, key_eq_refl k, Redis.entry-delete redis s now k k),
            (λ t u v. absurd (ground arith), λ t. absurd (ground (arith, t, e))),
          ),
        )
        | inr g ↦ simp g (
            claimed (Redis.set_nx_ex redis now k 1 cooldown s)
              (Redis.set_nx_ex_lem redis s now 1 cooldown k)
              (λ t. ground (arith, t, Redis.entry-set_nx_ex redis s now 1 cooldown k k)))
      ]
    where
      claimed :
          (x : Bool × Redis.Store redis)
          → x.0 ≡ not (cooling now s)
          → (cooling now s ≡ true → cooling now x.1 ≡ true)
          → ((when_claimed now address delivered x).0 ≡ not (cooling now s))
            × ((false ≡ true → cooling now (when_claimed now address delivered x).1 ≡ false)
                × (((when_claimed now address delivered x).0 ≡ true
                      → address ≡ true
                      → delivered ≡ false
                      → cooling now (when_claimed now address delivered x).1 ≡ false)
                    × (false ≡ false
                        → cooling now s ≡ true
                        → cooling now (when_claimed now address delivered x).1 ≡ true)))
      claimed (false, v) h kept =
          (h, (λ t. absurd (ground arith), (λ t. absurd (ground arith), λ t. kept)))
      claimed (true, v) h kept = (
        h,
        (
          λ t. absurd (ground arith),
          (
            λ t u d.
                simp (u, d)
                  (ground (
                    arith,
                    key_eq_refl (alert accounts_alert),
                    Redis.entry-delete redis v now (alert accounts_alert) (alert accounts_alert),
                  )),
            λ t u. absurd (ground (arith, simp u at h)),
          ),
        ),
      )
