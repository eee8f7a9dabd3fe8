-- ===== src/Account/Reset.antt =====
-- The outcomes of `reset_password`.
use shikomi.Prelude.{
  ℕ, ◌≡◌, refl, ◌∙◌, sym, ◌==◌, ==_refl, Bool, true, false, not, ◌&&◌, leb, Option, none, some,
  is_some, if◌then◌else◌, Bool-cases, inl, inr, arith,
}
use shikomi.Services.{Table, matched, revise}
use shikomi.Auth.{first}
use shikomi.Auth.Reuse.{IsClosed, find-revoke_all}
use shikomi.Account.{
  Purpose, purpose_reset, EmailToken, User, token_used, token_expired, invalid_token, Result, done,
  refused, stale, Checked, usable, rejected, same_purpose, Crypto, Store, World, Request,
  check_token, check_found, used, consume_token, weak_password, when_owner, when_usable,
  with_password, close_sessions, write_reset, reset_password,
}

abbrev pub is_rejected : Checked → Bool
is_rejected (usable id row) = false
is_rejected (rejected r) = true

-- A token that has been marked as used is refused for every purpose.
rejected-used :
    (now id : ℕ) (o : Option EmailToken) (purpose : Purpose) (at : ℕ)
    → is_rejected (check_token purpose at id (revise (λ r. true) (used now) o)) ≡ true
rejected-used now id none purpose at = refl
rejected-used now id (some row) purpose at = elim (Bool-cases (same_purpose row.purpose purpose)) [
  | inl y ↦ simp y refl
  | inr n ↦ simp n refl
]

both_one : (a b : ℕ) → true ≡ (a == 1 && b == 1) → (a ≡ 1) × (b ≡ 1)
both_one a b e = ground arith

module _ (c : Crypto) (t : Store) where
  -- The link is one that the table holds, for this purpose, not used and not expired.
  pub record IsUsable (raw : ℕ) (now : ℕ) (w : World t) (id : ℕ) (row : EmailToken) : Type 0 where
    pub listed :
        first (Table.select t.tokens (λ r. r.token_hash == Crypto.hash_token c raw) w.tokens)
        ≡ some id
    pub found : Table.find t.tokens w.tokens id ≡ some row
    pub purpose : same_purpose row.purpose purpose_reset ≡ true
    pub unused : is_some row.used_at ≡ false
    pub fresh : leb row.expires_at now ≡ false

  -- The state after a reset by the link `id` of `user`.
  pub record IsReset (q : Request (World t)) (id user : ℕ) (after : World t) : Type 0 where
    pub row : User
    pub found : Table.find t.users after.users user ≡ some row
    pub password : Crypto.verify_password c q.new_password row.password_hash ≡ true
    pub is_verified : row.email_verified ≡ true
    pub spent :
        (purpose : Purpose) (now : ℕ)
        → is_rejected (check_token purpose now id (Table.find t.tokens after.tokens id)) ≡ true
    pub closed : (j : ℕ) → IsClosed user (Table.find t.sessions after.sessions j)

  -- What a call leaves behind: a reset, or for a refusal nothing at all.
  unfoldable pub Outcome : Request (World t) → World t → Result × World t → Type 0
  Outcome q w (done user, after) =
      (id : ℕ) × (row : EmailToken) × IsUsable q.raw q.now w id row
      × (row.user_id ≡ user)
      × IsReset q id user after
  Outcome q w (refused r, after) = after ≡ w
  Outcome q w (stale, after) = after ≡ q.meanwhile w

  changed-some :
      (hash : ℕ) (p : ℕ) (o : Option User)
      → Crypto.verify_password c p hash ≡ true
      → matched (λ u. true) o ≡ 1
      → (u : User) × (revise (λ u. true) (with_password c t hash) o ≡ some u)
        × (Crypto.verify_password c p u.password_hash ≡ true)
        × (u.email_verified ≡ true)
  changed-some hash p none v e = absurd (ground arith)
  changed-some hash p (some u) v e = (with_password c t hash u, refl, v, refl)

  module _ (q : Request (World t)) (w : World t) (id : ℕ) (row : EmailToken) where
    abbrev other : World t
    other = q.meanwhile w

    abbrev hash : ℕ
    hash = Crypto.hash_password c q.salt q.new_password

    abbrev tokens : ℕ × Table.State t.tokens
    tokens = Table.update t.tokens id (λ r. true) (used q.now) other.tokens

    abbrev users : ℕ × Table.State t.users
    users = Table.update t.users row.user_id (λ u. true) (with_password c t hash) other.users

    abbrev after : World t
    after = record other {
      users = users.1;
      tokens = tokens.1;
      sessions = close_sessions c t q.now row.user_id other.sessions;
    }

    after-IsReset : tokens.0 ≡ 1 → users.0 ≡ 1 → IsReset q id row.user_id after
    after-IsReset m n =
        let there =
          sym (
            Table.count-update t.users row.user_id (λ u. true) (with_password c t hash) other.users)
          ∙ n in
        let (u, e, v, verified) =
          changed-some hash q.new_password (Table.find t.users other.users row.user_id)
            (Crypto.verify-hash c q.salt q.new_password) there in
        record {
          row = u;
          found =
              Table.find-update t.users row.user_id row.user_id (λ u. true) (with_password c t hash)
                other.users
              ∙ rw (==_refl row.user_id) e;
          password = v;
          is_verified = verified;
          spent = λ purpose at.
              rw
                (Table.find-update t.tokens id id (λ r. true) (used q.now) other.tokens, ==_refl id)
                (rejected-used q.now id (Table.find t.tokens other.tokens id) purpose at);
          closed = λ j.
              find-revoke_all t.sessions (λ u. true) (Crypto.hash_token c) 0 row.user_id q.now j
                other.sessions;
        }

    write_reset-Outcome :
        (u : User) → IsUsable q.raw q.now w id row → Outcome q w (write_reset c t q w id row u)
    unfolding Outcome
    write_reset-Outcome u ok = allowed (Crypto.policy c q.new_password u)
      where
        written :
            (b : Bool)
            → b ≡ (tokens.0 == 1 && users.0 == 1)
            → Outcome q w (if b then (done row.user_id, after) else (stale, other))
        written true e =
            let (m, n) = both_one tokens.0 users.0 e in (id, row, ok, refl, after-IsReset m n)
        written false e = refl

        allowed :
            (b : Bool)
            → Outcome q w (
                if b
                then (if tokens.0 == 1 && users.0 == 1
                    then (done row.user_id, after)
                    else (stale, other))
                else (refused weak_password, w))
        allowed true = written (tokens.0 == 1 && users.0 == 1) refl
        allowed false = refl

  owner-Outcome :
      (q : Request (World t)) (w : World t) (id : ℕ) (row : EmailToken) (o : Option User)
      → IsUsable q.raw q.now w id row
      → Outcome q w (when_owner c t w (write_reset c t q w id row) o)
  unfolding Outcome
  owner-Outcome q w id row none ok = refl
  owner-Outcome q w id row (some u) ok = write_reset-Outcome q w id row u ok

  -- A call of `reset_password` that succeeds had a link that the table holds for this purpose, not used
  -- and not expired; it leaves the link refused for every later use, the new password in place and the
  -- address verified, and every session of the user revoked and outside every grace. A call that is
  -- refused, for its link or its password, changes nothing.
  pub reset_password-Outcome :
      (q : Request (World t)) (w : World t) → Outcome q w (reset_password c t q w)
  unfolding reset_password consume_token Outcome
  reset_password-Outcome q w = by_id listed refl
    where
      listed : Option ℕ
      listed =
          first (Table.select t.tokens (λ r. r.token_hash == Crypto.hash_token c q.raw) w.tokens)

      by_check :
          (id : ℕ) (row : EmailToken)
          → listed ≡ some id
          → Table.find t.tokens w.tokens id ≡ some row
          → (same is_used late : Bool) → same_purpose row.purpose purpose_reset ≡ same
          → is_some row.used_at ≡ is_used
          → leb row.expires_at q.now ≡ late
          → Outcome q w (
              when_usable c t w (write_reset c t q w) (
                if not same
                then rejected invalid_token
                else if is_used
                then rejected token_used
                else if late
                then rejected token_expired
                else usable id row))
      by_check id row l f false is_used late p u e = refl
      by_check id row l f true true late p u e = refl
      by_check id row l f true false true p u e = refl
      by_check id row l f true false false p u e =
          owner-Outcome q w id row (Table.find t.users w.users row.user_id)
            (record { listed = l; found = f; purpose = p; unused = u; fresh = e })

      by_row :
          (id : ℕ)
          → listed ≡ some id
          → (o : Option EmailToken) → Table.find t.tokens w.tokens id ≡ o
          → Outcome q w
              (when_usable c t w (write_reset c t q w) (check_token purpose_reset q.now id o))
      by_row id l none f = refl
      by_row id l (some row) f =
          by_check id row l f (same_purpose row.purpose purpose_reset) (is_some row.used_at)
            (leb row.expires_at q.now) refl refl refl

      by_id :
          (o : Option ℕ)
          → listed ≡ o
          → Outcome q w
              (when_usable c t w (write_reset c t q w) (check_found c t purpose_reset q.now o w))
      by_id none l = refl
      by_id (some id) l = by_row id l (Table.find t.tokens w.tokens id) refl
