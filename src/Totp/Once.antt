-- ===== src/Totp/Once.antt =====
-- Two attempts with one code (`verify_second_factor`).
use shikomi.Prelude.{
  ℕ, ◌≡◌, refl, ap, ◌∙◌, Bool, false, ◌==◌, ==_refl, inl, inr, Option, none, some, List, [], ◌∷◌,
  length, arith, Bool-cases, if◌then◌else◌,
}
use shikomi.Services.{Table, revise, matched, among}
use shikomi.Totp.{
  current_step, Crypto, Store, World, UserRow, RecoveryCode, Result, done, is_newer, is_unused,
  claim_step, claim_recovery_code, when_step, when_unsealed, when_enrolled, verify_second_factor,
  is_totp_code, verify, match_steps, window,
}

empty_if_none_among : (ks : List ℕ) → ((j : ℕ) → among j ks ≡ false) → length ks ≡ 0
empty_if_none_among [] h = refl
empty_if_none_among (k ∷ ks) h = absurd (ground (arith, h k))

newer_itself : (step : ℕ) → is_newer step (some step) ≡ false
newer_itself step = ground arith

module _ (c : Crypto) (t : Store c) where
  claim_step_once :
      (user step : ℕ) (w : World c t)
      → (claim_step c t user step (claim_step c t user step w).1).0 ≡ false
  unfolding claim_step
  claim_step_once user step w =
      rw (Table.count-update (Store.users t), Table.find-update (Store.users t), ==_refl user)
        (spent (Table.find (Store.users t) (World.users w) user))
    where
      spent :
          (o : Option (UserRow c t))
          → (matched
                (λ u. is_newer step u.totp_last_step)
                (revise
                  (λ u. is_newer step u.totp_last_step)
                  (λ u. record u { totp_last_step = some step })
                  o)
              == 1)
            ≡ false
      spent none = refl
      spent (some u) = elim (Bool-cases (is_newer step u.totp_last_step)) [
        | inl e ↦ simp (e, newer_itself step) refl
        | inr g ↦ simp g refl
      ]

  claim_recovery_code_once :
      (user : ℕ) (code : List ℕ) (now later : ℕ) (w : World c t)
      → (claim_recovery_code c t user code later (claim_recovery_code c t user code now w).1).0
        ≡ false
  unfolding claim_recovery_code
  claim_recovery_code_once user code now later w =
      let unused : RecoveryCode → Bool = is_unused c t user (Crypto.hash_recovery_code c code) in
      rw
        (empty_if_none_among
          (Table.select (Store.codes t) unused (
            Table.update_all (Store.codes t) unused (λ r. record r { used_at = some now })
              (World.codes w)))
          (λ j.
            Table.mem-select (Store.codes t) j unused (
              Table.update_all (Store.codes t) unused (λ r. record r { used_at = some now })
                (World.codes w))
            ∙ rw (Table.find-update_all (Store.codes t))
                (burned (Table.find (Store.codes t) (World.codes w) j))))
        refl
    where
      burned :
          (o : Option RecoveryCode)
          → (matched (is_unused c t user (Crypto.hash_recovery_code c code)) (
                revise
                  (is_unused c t user (Crypto.hash_recovery_code c code))
                  (λ r. record r { used_at = some now })
                  o)
              == 1)
            ≡ false
      burned none = refl
      burned (some r) = ground arith

  abbrev pub accepts : Result Bool → Bool
  accepts (done b) = b
  accepts _ = false

  -- Of two attempts with one code, by requests that read the same row and in the same time step, the
  -- second is not accepted: no code, a one-time password or a recovery code, is accepted twice.
  pub verify_second_factor_once :
      (user : ℕ) (u : UserRow c t) (code : List ℕ) (now later : ℕ) (w : World c t)
      → current_step later ≡ current_step now
      → accepts
          (verify_second_factor c t user u code later
            (verify_second_factor c t user u code now w).1).0
        ≡ false
  unfolding verify_second_factor verify
  verify_second_factor_once user u code now later w same = elim (Bool-cases u.totp_enabled) [
    | inl e ↦ simp e (enrolled u.totp_secret_enc)
    | inr g ↦ simp g refl
  ]
    where
      stepped : (o : Option ℕ) → accepts (when_step c t user o (when_step c t user o w).1).0 ≡ false
      stepped none = refl
      stepped (some step) = claim_step_once user step w

      again :
          (secret : Crypto.Secret c)
          → verify (Crypto.Secret c) (Crypto.hotp c) secret code later u.totp_last_step
            ≡ verify (Crypto.Secret c) (Crypto.hotp c) secret code now u.totp_last_step
      again secret =
          ap
            (λ n.
              if is_totp_code code
              then match_steps (Crypto.Secret c) (Crypto.hotp c) secret code u.totp_last_step
                  (window (Crypto.Secret c) (Crypto.hotp c) n) none
              else none)
            same

      unsealed :
          (o : Option (Crypto.Secret c))
          → accepts
              (when_unsealed c t user u code later o (when_unsealed c t user u code now o w).1).0
            ≡ false
      unsealed none = refl
      unsealed (some secret) =
          ap
            (λ o.
              accepts
                (when_step c t user o
                  (when_step c t user
                    (verify (Crypto.Secret c) (Crypto.hotp c) secret code now u.totp_last_step)
                    w).1).0)
            (again secret)
          ∙ stepped (verify (Crypto.Secret c) (Crypto.hotp c) secret code now u.totp_last_step)

      enrolled :
          (o : Option (Crypto.Sealed c))
          → accepts
              (when_enrolled c t user u code later o (when_enrolled c t user u code now o w).1).0
            ≡ false
      enrolled none = refl
      enrolled (some sealed) = elim (Bool-cases (is_totp_code code)) [
        | inl e ↦ simp e (unsealed (Crypto.unseal c sealed))
        | inr g ↦ simp g (claim_recovery_code_once user code now later w)
      ]
