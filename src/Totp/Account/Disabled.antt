-- ===== src/Totp/Account/Disabled.antt =====
-- What is left of a second factor that was turned off.
use shikomi.Prelude.{
  ℕ, ◌≡◌, refl, Bool, true, false, ◌==◌, ==_refl, Option, none, some, List, arith, inl, inr,
  Bool-cases,
}
use shikomi.Services.{Table, revise, unless, matched}
use shikomi.Totp.{
  Crypto, Store, World, UserRow, RecoveryCode, Result, done, refused, unreadable,
  verify_second_factor,
}
use shikomi.Totp.Account.{delete_codes, clear, when_verified, disable}
use shikomi.Totp.Once.{accepts}

module _ (c : Crypto) (t : Store c) where
  abbrev pub IsOff : Option (UserRow c t) → Type 0
  IsOff none = Unit
  IsOff (some u) =
      (u.totp_enabled ≡ false) × ((u.totp_secret_enc ≡ none) × (u.totp_last_step ≡ none))

  -- The user's row, if there is one, has no second factor, and no recovery code is the user's.
  pub record IsCleared (user : ℕ) (w : World c t) : Type 0 where
    pub row : IsOff (Table.find (Store.users t) (World.users w) user)
    pub codes :
        (j : ℕ)
        → matched (λ r. r.user_id == user) (Table.find (Store.codes t) (World.codes w) j) ≡ 0

  clear-IsCleared : (user : ℕ) (w : World c t) → IsCleared user (clear c t user w)
  unfolding clear delete_codes
  clear-IsCleared user w = record {
    row =
        rw (Table.find-update (Store.users t), ==_refl user)
          (off (Table.find (Store.users t) (World.users w) user));
    codes = λ j.
        rw (Table.find-delete_all (Store.codes t))
          (gone (Table.find (Store.codes t) (World.codes w) j));
  }
    where
      off :
          (o : Option (UserRow c t))
          → IsOff (
              revise
                (λ r. true)
                (λ r. record r {
                  totp_enabled = false;
                  totp_secret_enc = none;
                  totp_last_step = none;
                })
                o)
      off none = tt
      off (some u) = (refl, (refl, refl))

      gone :
          (o : Option RecoveryCode)
          → matched (λ r. r.user_id == user) (unless (λ r. r.user_id == user) o) ≡ 0
      gone none = refl
      gone (some r) = elim (Bool-cases (r.user_id == user)) [
        | inl e ↦ simp e refl
        | inr g ↦ simp g refl
      ]

  -- The second factor is turned off only for the right password and a code that is accepted, and then
  -- nothing of it is left.
  pub disable-done :
      (user : ℕ) (u : UserRow c t) (password : ℕ) (code : List ℕ) (now : ℕ) (w : World c t)
      → accepts c t (disable c t user u password code now w).0 ≡ true
      → (Crypto.verify_password c password u.password_hash ≡ true)
        × ((accepts c t (verify_second_factor c t user u code now w).0 ≡ true)
            × IsCleared user (disable c t user u password code now w).1)
  unfolding disable
  disable-done user u password code now w h = elim (Bool-cases u.totp_enabled) [
    | inl e ↦ elim (Bool-cases (Crypto.verify_password c password u.password_hash)) [
      | inl k ↦
          simp (e, k)
            (refl, verified (verify_second_factor c t user u code now w) (simp (e, k) at h))
      | inr g ↦ absurd (ground (arith, simp (e, g) at h))
    ]
    | inr g ↦ absurd (ground (arith, simp g at h))
  ]
    where
      verified :
          (x : Result Bool × World c t)
          → accepts c t (when_verified c t user x).0 ≡ true
          → (accepts c t x.0 ≡ true) × IsCleared user (when_verified c t user x).1
      verified (done true, v) h = (refl, clear-IsCleared user v)
      verified (done false, v) h = absurd (ground arith)
      verified (refused e, v) h = absurd (ground arith)
      verified (unreadable, v) h = absurd (ground arith)
