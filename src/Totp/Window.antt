-- ===== src/Totp/Window.antt =====
-- Which codes `verify` accepts.
use shikomi.Prelude.{
  ℕ, ◌≡◌, ◌≤◌, ◌+◌, ◌-◌, refl, Bool, true, false, ◌&&◌, ◌⊎◌, inl, inr, Option, none, some, List,
  arith, Bool-cases, if◌then◌else◌,
}
use shikomi.Totp.{
  compact, is_totp_code, current_step, fits, match_steps, window, verify, text_eq, is_newer,
}

picked :
    (a b c : Bool) (x y z step : ℕ)
    → (if c then some z else (if b then some y else (if a then some x else none))) ≡ some step
    → ((a ≡ true) × (x ≡ step)) ⊎ (((b ≡ true) × (y ≡ step)) ⊎ ((c ≡ true) × (z ≡ step)))
picked a b c x y z step h = ground arith

fitting : (a b : Bool) → (a && b) ≡ true → (a ≡ true) × (b ≡ true)
fitting true b h = (refl, h)
fitting false b h = absurd (ground arith)

module _ (Secret : Type 0) (hotp : Secret → ℕ → List ℕ) where
  -- A code that is accepted for a step has six digits, is the one-time password of the step, which is
  -- newer than the last step accepted and at most one step from the current one.
  pub verify-some :
      (secret : Secret) (code : List ℕ) (now step : ℕ) (last : Option ℕ)
      → verify Secret hotp secret code now last ≡ some step
      → (is_totp_code code ≡ true)
        × ((text_eq (hotp secret step) (compact code) ≡ true)
            × ((is_newer step last ≡ true)
                × ((step ≤ current_step now + 1) × (current_step now ≤ step + 1))))
  unfolding verify
  verify-some secret code now step last h = elim (Bool-cases (is_totp_code code)) [
    | inl t ↦ let at = simp t at h in (t, chosen (current_step now) at)
    | inr g ↦ absurd (ground (arith, simp g at h))
  ]
    where
      fit : (k : ℕ) → Bool
      fit = fits Secret hotp secret code last

      near :
          (k n : ℕ)
          → fits Secret hotp secret code last k ≡ true
          → k ≡ step
          → k ≤ n + 1
          → n ≤ k + 1
          → (text_eq (hotp secret step) (compact code) ≡ true)
            × ((is_newer step last ≡ true) × ((step ≤ n + 1) × (n ≤ step + 1)))
      near k n f e le ge =
          let both = fitting (text_eq (hotp secret k) (compact code)) (is_newer k last) f in
          rw⁻¹ e (both.0, (both.1, (le, ge)))

      chosen :
          (n : ℕ)
          → match_steps Secret hotp secret code last (window Secret hotp n) none ≡ some step
          → (text_eq (hotp secret step) (compact code) ≡ true)
            × ((is_newer step last ≡ true) × ((step ≤ n + 1) × (n ≤ step + 1)))
      chosen n e = elim (picked _ _ _ (n - 1) n (n + 1) step e) [
        | inl (f, e) ↦ near (n - 1) n f e (omega arith) (omega arith)
        | inr (inl (f, e)) ↦ near n n f e (omega arith) (omega arith)
        | inr (inr (f, e)) ↦ near (n + 1) n f e (omega arith) (omega arith)
      ]
