-- ===== src/Totp.antt =====
-- backend/app/totp.py (`verify`) and backend/app/services/totp_service.py: the second factor. A text
-- is the list of its code points. The one-time password of a step, the seal of a secret and the hash
-- of a recovery code are parameters; `unseal` gives `none` where it raises.
pub mod Window
pub mod Once
pub mod Account
use shikomi.Prelude.{
  ℕ, ◌≡◌, ◌+◌, ◌-◌, ◌/◌, ◌==◌, Bool, true, false, not, ◌&&◌, ◌||◌, ltb, leb, Option, none, some,
  List, [], ◌∷◌, is_some, length, if◌then◌else◌,
}
use shikomi.Services.{Table}

-- STEP_SECONDS and DIGITS; WINDOW is 1
abbrev pub step_seconds : ℕ
step_seconds = 30

abbrev pub digits : ℕ
digits = 6

abbrev pub text_eq : List ℕ → List ℕ → Bool
text_eq [] [] = true
text_eq (x ∷ xs) (y ∷ ys) = x == y && text_eq xs ys
text_eq _ _ = false

-- `code.replace(" ", "")`
abbrev pub compact : List ℕ → List ℕ
compact [] = []
compact (c ∷ cs) = if c == 32 then compact cs else c ∷ compact cs

-- `isascii() and isdigit()`, on a text that is not empty
abbrev pub all_digits : List ℕ → Bool
all_digits [] = true
all_digits (c ∷ cs) = (leb 48 c && leb c 57) && all_digits cs

-- `_is_totp_code`, and the same test in `verify`
abbrev pub is_totp_code : List ℕ → Bool
is_totp_code code = length (compact code) == digits && all_digits (compact code)

unfoldable pub current_step : ℕ → ℕ
current_step now = now / step_seconds

-- `last_step is None or step > last_step`
abbrev pub is_newer : ℕ → Option ℕ → Bool
is_newer step none = true
is_newer step (some last) = ltb last step

module _ (Secret : Type 0) (hotp : Secret → ℕ → List ℕ) where
  abbrev pub fits : Secret → List ℕ → Option ℕ → ℕ → Bool
  fits secret code last step = text_eq (hotp secret step) (compact code) && is_newer step last

  -- The loop: every step is compared, and the last match counts.
  abbrev pub match_steps : Secret → List ℕ → Option ℕ → List ℕ → Option ℕ → Option ℕ
  match_steps secret code last [] matched = matched
  match_steps secret code last (step ∷ steps) matched =
      match_steps secret code last steps (if fits secret code last step then some step else matched)

  -- `range(now_step - WINDOW, now_step + WINDOW + 1)`, for a clock past its first step
  abbrev pub window : ℕ → List ℕ
  window step = (step - 1) ∷ step ∷ (step + 1) ∷ []

  unfoldable pub verify : Secret → List ℕ → ℕ → Option ℕ → Option ℕ
  unfolding current_step
  verify secret code now last =
      if is_totp_code code
      then match_steps secret code last (window (current_step now)) none
      else none

pub record User (Sealed : Type 0) : Type 0 where
  pub totp_enabled : Bool
  pub totp_secret_enc : Option Sealed
  pub totp_last_step : Option ℕ
  pub password_hash : ℕ

pub record RecoveryCode : Type 0 where
  pub user_id : ℕ
  pub code_hash : ℕ
  pub used_at : Option ℕ

pub data Refusal : Type 0 where
  totp_already_enabled totp_not_started invalid_code totp_not_enabled : Refusal
  invalid_current_password : Refusal

-- How a call ends: with a value, with an API error, or with the failure to unseal.
pub data Result (A : Type 0) : Type 0 where
  done : A → Result A
  refused : Refusal → Result A
  unreadable : Result A

-- The parameters: the codes, the seal, the hashes.
pub record Crypto : Type 1 where
  pub Secret : Type 0
  pub Sealed : Type 0
  pub hotp : Secret → ℕ → List ℕ
  pub seal : Secret → Sealed
  pub unseal : Sealed → Option Secret
  pub unseal-seal : (secret : Secret) → unseal (seal secret) ≡ some secret
  pub hash_recovery_code : List ℕ → ℕ
  pub verify_password : ℕ → ℕ → Bool

-- The two tables; a recovery code's row is found by its id.
pub record Store (c : Crypto) : Type 1 where
  pub users : Table (User (Crypto.Sealed c))
  pub codes : Table RecoveryCode

module _ (c : Crypto) (t : Store c) where
  pub record World : Type 0 where
    pub users : Table.State t.users
    pub codes : Table.State t.codes

  abbrev pub UserRow : Type 0
  UserRow = User (Crypto.Sealed c)

  abbrev pub is_unused : ℕ → ℕ → RecoveryCode → Bool
  is_unused user hash r = (r.user_id == user && r.code_hash == hash) && not (is_some r.used_at)

  -- The claim of a time step: one conditional update.
  unfoldable pub claim_step : ℕ → ℕ → World → Bool × World
  claim_step user step w =
      let (count, users) =
        Table.update t.users user (λ u. is_newer step u.totp_last_step)
          (λ u. record u { totp_last_step = some step }) w.users in
      (count == 1, record w { users = users })

  -- The claim of a recovery code; the row count is that of the rows that the update changes.
  unfoldable pub claim_recovery_code : ℕ → List ℕ → ℕ → World → Bool × World
  claim_recovery_code user code now w =
      let unused = is_unused user (Crypto.hash_recovery_code c code) in
      (
        length (Table.select t.codes unused w.codes) == 1,
        record w {
          codes = Table.update_all t.codes unused (λ r. record r { used_at = some now }) w.codes;
        },
      )

  abbrev pub when_step : ℕ → Option ℕ → World → Result Bool × World
  when_step user none w = (done false, w)
  when_step user (some step) w = let (ok, w') = claim_step user step w in (done ok, w')

  abbrev pub when_unsealed :
      ℕ → UserRow → List ℕ → ℕ → Option (Crypto.Secret c) → World → Result Bool × World
  when_unsealed user u code now none w = (unreadable, w)
  when_unsealed user u code now (some secret) w =
      when_step user (verify (Crypto.Secret c) (Crypto.hotp c) secret code now u.totp_last_step) w

  abbrev pub when_enrolled :
      ℕ → UserRow → List ℕ → ℕ → Option (Crypto.Sealed c) → World → Result Bool × World
  when_enrolled user u code now none w = (done false, w)
  when_enrolled user u code now (some sealed) w =
      if is_totp_code code
      then when_unsealed user u code now (Crypto.unseal c sealed) w
      else let (ok, w') = claim_recovery_code user code now w in (done ok, w')

  -- `u` is the row as the request read it.
  unfoldable pub verify_second_factor : ℕ → UserRow → List ℕ → ℕ → World → Result Bool × World
  unfolding verify claim_step claim_recovery_code
  verify_second_factor user u code now w =
      if u.totp_enabled then when_enrolled user u code now u.totp_secret_enc w else (done false, w)
