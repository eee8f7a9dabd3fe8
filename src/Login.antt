-- ===== src/Login.antt =====
-- The lockout in `login` and `login_2fa` of backend/app/routers/auth.py. What the credentials and the
-- code turn out to be are arguments; the session that follows a sign-in is in Auth.
use Prim.Native.String.{String}
use shikomi.Prelude.{
  ℕ, ◌≡◌, ◌≤◌, ◌<◌, refl, ◌+◌, ◌-◌, Bool, true, false, ◌==◌, leb, Option, none, some, arith,
  if◌then◌else◌, le→leb,
}
use shikomi.Services.Redis.{Redis, Key, authfail, authlock, key_eq_refl, Entry, increased}
use shikomi.Queue.{
  incr_with_ttl, incr_login_failures, set_login_lock, get_login_lock, clear_login_failures,
  value_or,
}

pub data Answer : Type 0 where
  account_locked : ℕ → Answer
  invalid_credentials invalid_code invalid_mfa_token mfa_challenge signed_in : Answer

-- What `authenticate` finds: nobody, or a user with or without a second factor.
pub data Credentials : Type 0 where
  wrong needs_code complete : Credentials

pub record Settings : Type 0 where
  pub login_max_failures : ℕ
  pub login_failure_window_seconds : ℕ
  pub login_lockout_seconds : ℕ

module _ (redis : Redis) (lower : String → String) (settings : Settings) where
  open redis use {Store, entry}

  -- The failure is counted, and the account locked when the count reaches the limit.
  unfoldable pub count_failure : ℕ → String → Store → Store
  count_failure now email s =
      let (count, s') =
        incr_login_failures redis lower now email settings.login_failure_window_seconds s in
      if leb settings.login_max_failures count
      then set_login_lock redis lower now email settings.login_lockout_seconds s'
      else s'

  abbrev pub when_checked : ℕ → String → Credentials → Store → Answer × Store
  when_checked now email wrong s = (invalid_credentials, count_failure now email s)
  when_checked now email needs_code s = (mfa_challenge, s)
  when_checked now email complete s = (signed_in, clear_login_failures redis lower now email s)

  unfoldable pub login : ℕ → String → Credentials → Store → Answer × Store
  unfolding count_failure
  login now email who s =
      let locked = get_login_lock redis lower now email s in
      if locked == 0 then when_checked now email who s else (account_locked locked, s)

  -- `challenge` says that the token is valid and still that of the user; `accepted` that the code is.
  unfoldable pub login_2fa : ℕ → String → Bool → Bool → Store → Answer × Store
  unfolding count_failure
  login_2fa now email challenge accepted s =
      let locked = get_login_lock redis lower now email s in
      if challenge
      then (if locked == 0
          then (if accepted
              then (signed_in, clear_login_failures redis lower now email s)
              else (invalid_code, count_failure now email s))
          else (account_locked locked, s))
      else (invalid_mfa_token, s)

  count-incr :
      (now ttl : ℕ) (k : Key) (s : Store)
      → (incr_with_ttl redis now k ttl s).0 ≡ value_or 0 (entry s now k) + 1
  unfolding incr_with_ttl
  count-incr now ttl k s =
      rw (Redis.entry-incr redis s now k k, key_eq_refl k) (more (entry s now k))
    where
      more : (o : Option Entry) → value_or 0 (some (increased o)) ≡ value_or 0 o + 1
      more none = refl
      more (some e) = refl

  enough :
      (now : ℕ) (email : String) (s : Store)
      → settings.login_max_failures ≤ value_or 0 (entry s now (authfail (lower email))) + 1
      → leb settings.login_max_failures
          (incr_login_failures redis lower now email settings.login_failure_window_seconds s).0
        ≡ true
  unfolding incr_login_failures
  enough now email s full =
      rw (count-incr now settings.login_failure_window_seconds (authfail (lower email)) s) (
        le→leb settings.login_max_failures (value_or 0 (entry s now (authfail (lower email))) + 1)
          full)

  lock-set_login_lock :
      (now t seconds : ℕ) (email : String) (s : Store)
      → now ≤ t
      → t < now + seconds
      → get_login_lock redis lower t email (set_login_lock redis lower now email seconds s)
        ≡ now + seconds - t
  unfolding get_login_lock set_login_lock
  lock-set_login_lock now t seconds email s later soon =
      let k : Key = authlock (lower email) in
      rw
        (
          Redis.entry-later redis (Redis.set_ex redis now k 1 seconds s) now t k later,
          Redis.entry-set_ex redis s now 1 seconds k k,
          key_eq_refl k,
        )
        (ground arith)

  lock-count_failure :
      (now t : ℕ) (email : String) (s : Store)
      → settings.login_max_failures ≤ value_or 0 (entry s now (authfail (lower email))) + 1
      → now ≤ t
      → t < now + settings.login_lockout_seconds
      → get_login_lock redis lower t email (count_failure now email s)
        ≡ now + settings.login_lockout_seconds - t
  unfolding count_failure
  lock-count_failure now t email s full later soon = simp (enough now email s full) (
      lock-set_login_lock now t settings.login_lockout_seconds email
        (incr_login_failures redis lower now email settings.login_failure_window_seconds s).1 later
        soon)

  -- A failed password that reaches the limit locks the account: until the lockout has passed, every
  -- sign-in is refused with the time left, before the password or the code counts, and changes nothing.
  pub login-locks :
      (now t : ℕ) (email : String) (who : Credentials) (accepted : Bool) (s : Store)
      → settings.login_max_failures ≤ value_or 0 (entry s now (authfail (lower email))) + 1
      → get_login_lock redis lower now email s ≡ 0
      → now ≤ t
      → t < now + settings.login_lockout_seconds
      → (login t email who (login now email wrong s).1 ≡ (
        account_locked (now + settings.login_lockout_seconds - t),
        (login now email wrong s).1,
      ))
        × (login_2fa t email true accepted (login now email wrong s).1 ≡ (
          account_locked (now + settings.login_lockout_seconds - t),
          (login now email wrong s).1,
        ))
  unfolding login login_2fa
  login-locks now t email who accepted s full free later soon =
      let held = lock-count_failure now t email s full later soon in
      let some_left : ((now + settings.login_lockout_seconds - t) == 0) ≡ false = ground arith in
      rw free (rw held (simp some_left (refl, refl)))
