-- ===== src/Totp/Account.antt =====
-- Turning the second factor on and off: `begin_setup`, `enable`, `disable`, `clear` and
-- `regenerate_recovery_codes` of backend/app/services/totp_service.py. The codes that are drawn, with
-- the ids of their rows, are arguments.
pub mod Disabled
use shikomi.Prelude.{ℕ, ◌==◌, Bool, true, false, Option, none, some, List, [], ◌∷◌, if◌then◌else◌}
use shikomi.Services.{Table}
use shikomi.Totp.{
  Crypto, Store, World, User, UserRow, RecoveryCode, Result, done, refused, unreadable,
  totp_already_enabled, totp_not_started, invalid_code, totp_not_enabled, invalid_current_password,
  verify, verify_second_factor,
}

module _ (c : Crypto) (t : Store c) where
  -- One recovery code's row per code.
  unfoldable pub add_codes :
      ℕ → List (ℕ × List ℕ) → Table.State (Store.codes t) → Table.State (Store.codes t)
  add_codes user [] s = s
  add_codes user ((id, code) ∷ rest) s = add_codes user rest (
      Table.insert (Store.codes t) id
        (record { user_id = user; code_hash = Crypto.hash_recovery_code c code; used_at = none }) s)

  unfoldable pub delete_codes : ℕ → World c t → World c t
  delete_codes user w = record w {
    codes = Table.delete_all (Store.codes t) (λ r. r.user_id == user) (World.codes w);
  }

  unfoldable pub replace_recovery_codes : ℕ → List (ℕ × List ℕ) → World c t → World c t
  replace_recovery_codes user drawn w =
      let w' = delete_codes user w in record w' { codes = add_codes user drawn (World.codes w') }

  -- A flush of what the request has changed in its user's row.
  abbrev pub write_user : ℕ → (UserRow c t → UserRow c t) → World c t → World c t
  write_user user f w = record w {
    users = (Table.update (Store.users t) user (λ u. true) f (World.users w)).1;
  }

  unfoldable pub begin_setup :
      ℕ → UserRow c t → Crypto.Secret c → World c t → Result (Crypto.Secret c) × World c t
  begin_setup user u secret w = if u.totp_enabled then (refused totp_already_enabled, w) else (
    done secret,
    write_user user (λ r. record r { totp_secret_enc = some (Crypto.seal c secret) }) w,
  )

  abbrev pub when_proved :
      ℕ → List (ℕ × List ℕ) → Option ℕ → World c t → Result (List (ℕ × List ℕ)) × World c t
  when_proved user drawn none w = (refused invalid_code, w)
  when_proved user drawn (some step) w = (
    done drawn,
    replace_recovery_codes user drawn
        (write_user user (λ r. record r { totp_enabled = true; totp_last_step = some step }) w),
  )

  abbrev pub when_secret :
      ℕ
      → List ℕ
      → ℕ
      → List (ℕ × List ℕ)
      → Option (Crypto.Secret c)
      → World c t
      → Result (List (ℕ × List ℕ)) × World c t
  when_secret user code now drawn none w = (unreadable, w)
  when_secret user code now drawn (some secret) w =
      when_proved user drawn (verify (Crypto.Secret c) (Crypto.hotp c) secret code now none) w

  abbrev pub when_started :
      ℕ
      → List ℕ
      → ℕ
      → List (ℕ × List ℕ)
      → Option (Crypto.Sealed c)
      → World c t
      → Result (List (ℕ × List ℕ)) × World c t
  when_started user code now drawn none w = (refused totp_not_started, w)
  when_started user code now drawn (some sealed) w =
      when_secret user code now drawn (Crypto.unseal c sealed) w

  unfoldable pub enable :
      ℕ
      → UserRow c t
      → List ℕ
      → ℕ
      → List (ℕ × List ℕ)
      → World c t
      → Result (List (ℕ × List ℕ)) × World c t
  enable user u code now drawn w =
      if u.totp_enabled
      then (refused totp_already_enabled, w)
      else when_started user code now drawn u.totp_secret_enc w

  unfoldable pub clear : ℕ → World c t → World c t
  clear user w =
      write_user user
        (λ r. record r { totp_enabled = false; totp_secret_enc = none; totp_last_step = none })
        (delete_codes user w)

  abbrev pub when_verified : ℕ → Result Bool × World c t → Result Bool × World c t
  when_verified user (done true, w) = (done true, clear user w)
  when_verified user (done false, w) = (refused invalid_code, w)
  when_verified user (refused e, w) = (refused e, w)
  when_verified user (unreadable, w) = (unreadable, w)

  unfoldable pub disable : ℕ → UserRow c t → ℕ → List ℕ → ℕ → World c t → Result Bool × World c t
  unfolding clear
  disable user u password code now w =
      if u.totp_enabled
      then (if Crypto.verify_password c password u.password_hash
          then when_verified user (verify_second_factor c t user u code now w)
          else (refused invalid_current_password, w))
      else (refused totp_not_enabled, w)

  abbrev pub when_possessed :
      ℕ → List (ℕ × List ℕ) → Result Bool × World c t → Result (List (ℕ × List ℕ)) × World c t
  when_possessed user drawn (done true, w) = (done drawn, replace_recovery_codes user drawn w)
  when_possessed user drawn (done false, w) = (refused invalid_code, w)
  when_possessed user drawn (refused e, w) = (refused e, w)
  when_possessed user drawn (unreadable, w) = (unreadable, w)

  unfoldable pub regenerate_recovery_codes :
      ℕ
      → UserRow c t
      → List ℕ
      → ℕ
      → List (ℕ × List ℕ)
      → World c t
      → Result (List (ℕ × List ℕ)) × World c t
  regenerate_recovery_codes user u code now drawn w =
      if u.totp_enabled
      then when_possessed user drawn (verify_second_factor c t user u code now w)
      else (refused totp_not_enabled, w)
