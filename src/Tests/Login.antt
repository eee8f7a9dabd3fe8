-- ===== src/Tests/Login.antt =====
-- A second wrong password with a limit of two failures, and a sign-in forty seconds later.
use Prim.Native.String.{String}
use shikomi.Prelude.{◌≡◌, refl, true, some, none, if◌then◌else◌, arith}
use shikomi.Services.Redis.{key_eq, authfail}
use shikomi.Queue.{get_login_lock}
use shikomi.Login.{Settings, account_locked, complete, wrong, login, login_2fa, login-locks}
use shikomi.Tests.Instances.{cache, Cache}

abbrev settings : Settings
settings = record {
  login_max_failures = 2;
  login_failure_window_seconds = 900;
  login_lockout_seconds = 60;
}

abbrev same : String → String
same email = email

-- One failure was counted.
abbrev once : Cache
once k = if key_eq (authfail "ada") k then some (record { value = 1; expires = some 500 }) else none

free-lem : get_login_lock cache same 100 "ada" once ≡ 0
unfolding get_login_lock
free-lem = refl

login-locks_example :
    (login cache same settings 140 "ada" complete (login cache same settings 100 "ada" wrong once).1
      ≡ (account_locked 20, (login cache same settings 100 "ada" wrong once).1))
    × (login_2fa cache same settings 140 "ada" true true
          (login cache same settings 100 "ada" wrong once).1
        ≡ (account_locked 20, (login cache same settings 100 "ada" wrong once).1))
login-locks_example =
    login-locks cache same settings 100 140 "ada" complete true once (omega arith) free-lem
      (omega arith) (omega arith)
