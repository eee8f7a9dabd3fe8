-- ===== src/Tests/Totp.antt =====
-- A user whose one-time password of a step is the step in six digits, and who has a recovery code.
use shikomi.Prelude.{ℕ, ◌≡◌, ◌≤◌, ◌+◌, refl, true, false, ◌==◌, none, some, List, [], ◌∷◌, length}
use shikomi.Totp.{
  Crypto, Store, World, UserRow, RecoveryCode, is_totp_code, text_eq, compact, is_newer,
  current_step, verify, verify_second_factor,
}
use shikomi.Totp.Window.{verify-some}
use shikomi.Totp.Once.{accepts, verify_second_factor_once}
use shikomi.Totp.Account.{disable}
use shikomi.Totp.Account.Disabled.{IsCleared, disable-done}
use shikomi.Tests.Instances.{table}

abbrev digits_of : ℕ → List ℕ
digits_of step = 49 ∷ 50 ∷ 51 ∷ 52 ∷ 53 ∷ (48 + step) ∷ []

abbrev crypto : Crypto
crypto = record {
  Secret = ℕ;
  Sealed = ℕ;
  hotp = λ secret step. digits_of step;
  seal = λ secret. secret;
  unseal = λ sealed. some sealed;
  unseal-seal = λ secret. refl;
  hash_recovery_code = length;
  verify_password = λ password hash. password == hash;
}

abbrev store : Store crypto
store = record { users = table; codes = table }

abbrev enrolled : UserRow crypto store
enrolled = record {
  totp_enabled = true;
  totp_secret_enc = some 5;
  totp_last_step = some 1;
  password_hash = 8;
}

abbrev recovery : RecoveryCode
recovery = record { user_id = 3; code_hash = 97; used_at = none }

abbrev world : World crypto store
world = record { users = (3 ∷ [], λ j. some enrolled); codes = (1 ∷ [], λ j. some recovery) }

accepted-lem : verify ℕ (λ secret step. digits_of step) 5 (digits_of 3) 65 (some 1) ≡ some 3
unfolding verify
accepted-lem = refl

verify-some_example :
    (is_totp_code (digits_of 3) ≡ true)
    × ((text_eq (digits_of 3) (compact (digits_of 3)) ≡ true)
        × ((is_newer 3 (some 1) ≡ true) × ((3 ≤ current_step 65 + 1) × (current_step 65 ≤ 3 + 1))))
verify-some_example =
    verify-some ℕ (λ secret step. digits_of step) 5 (digits_of 3) 65 3 (some 1) accepted-lem

same_step-lem : current_step 66 ≡ current_step 65
unfolding current_step
same_step-lem = refl

verify_second_factor_once_example :
    accepts crypto store
      (verify_second_factor crypto store 3 enrolled
        (digits_of 3)
        66
        (verify_second_factor crypto store 3 enrolled (digits_of 3) 65 world).1).0
    ≡ false
verify_second_factor_once_example =
    verify_second_factor_once crypto store 3 enrolled (digits_of 3) 65 66 world same_step-lem

disabled-lem :
    accepts crypto store (disable crypto store 3 enrolled 8 (digits_of 3) 65 world).0 ≡ true
unfolding disable verify_second_factor
disabled-lem = refl

disable-done_example :
    (Crypto.verify_password crypto 8 8 ≡ true)
    × ((accepts crypto store (verify_second_factor crypto store 3 enrolled (digits_of 3) 65 world).0
          ≡ true)
        × IsCleared crypto store 3 (disable crypto store 3 enrolled 8 (digits_of 3) 65 world).1)
disable-done_example = disable-done crypto store 3 enrolled 8 (digits_of 3) 65 world disabled-lem
