-- ===== src/Account.antt =====
-- backend/app/services/account_service.py: the links that are emailed and the changes of a password.
-- Times are in seconds; a raw token, a hash, a password and an email address are numbers. `meanwhile`
-- is what other requests commit between this one's reads, with the lookup of breached passwords, and
-- its writes, which are one transaction.
pub mod Reset
pub mod Register
use shikomi.Prelude.{
  ℕ, ◌+◌, ◌≡◌, ◌==◌, Bool, true, false, not, ◌&&◌, ltb, leb, Option, none, some, is_some, List, [],
  if◌then◌else◌,
}
use shikomi.Services.{Table}
use shikomi.Auth.{RefreshToken, first, is_live, revoked, revoke_all, end_rotation_grace}

pub data Purpose : Type 0 where
  purpose_verify purpose_reset : Purpose

pub record EmailToken : Type 0 where
  pub user_id : ℕ
  pub token_hash : ℕ
  pub purpose : Purpose
  pub expires_at : ℕ
  pub used_at : Option ℕ

pub record User : Type 0 where
  pub email : ℕ
  pub username : ℕ
  pub email_verified : Bool
  pub password_hash : ℕ

pub data Refusal : Type 0 where
  invalid_token token_used token_expired invalid_current_password weak_password : Refusal

-- `stale` is the database layer's error for a row that is gone when it is written; nothing is stored.
pub data Result : Type 0 where
  done : ℕ → Result
  refused : Refusal → Result
  stale : Result

-- A token of the database that may be used, or why not.
pub data Checked : Type 0 where
  usable : ℕ → EmailToken → Checked
  rejected : Refusal → Checked

abbrev pub same_purpose : Purpose → Purpose → Bool
same_purpose purpose_verify purpose_verify = true
same_purpose purpose_reset purpose_reset = true
same_purpose _ _ = false

-- The hashes, of a token and of a password with a salt, and `enforce_password_policy`, false where it
-- refuses. A password verifies against its own hash.
pub record Crypto : Type 0 where
  pub hash_token : ℕ → ℕ
  pub hash_password : ℕ → ℕ → ℕ
  pub verify_password : ℕ → ℕ → Bool
  pub verify-hash : (salt p : ℕ) → verify_password p (hash_password salt p) ≡ true
  pub policy : ℕ → User → Bool

pub record Store : Type 1 where
  pub users : Table User
  pub tokens : Table EmailToken
  pub sessions : Table RefreshToken

pub record World (t : Store) : Type 0 where
  pub users : Table.State t.users
  pub tokens : Table.State t.tokens
  pub sessions : Table.State t.sessions

-- One request with an emailed link.
pub record Request (State : Type 0) : Type 0 where
  pub raw : ℕ
  pub new_password : ℕ
  pub salt : ℕ
  pub now : ℕ
  pub meanwhile : State → State

-- The checks of `_consume_token` on the row with the link's hash.
abbrev pub check_token : Purpose → ℕ → ℕ → Option EmailToken → Checked
check_token purpose now id none = rejected invalid_token
check_token purpose now id (some row) =
    if not (same_purpose row.purpose purpose)
    then rejected invalid_token
    else if is_some row.used_at
    then rejected token_used
    else if leb row.expires_at now
    then rejected token_expired
    else usable id row

abbrev pub used : ℕ → EmailToken → EmailToken
used now row = record row { used_at = some now }

module _ (c : Crypto) (t : Store) where
  abbrev pub check_found : Purpose → ℕ → Option ℕ → World t → Checked
  check_found purpose now none w = rejected invalid_token
  check_found purpose now (some id) w = check_token purpose now id (Table.find t.tokens w.tokens id)

  -- `_consume_token`, but for the write of `used_at`, which comes with the caller's writes
  unfoldable pub consume_token : ℕ → Purpose → ℕ → World t → Checked
  consume_token raw purpose now w =
      check_found purpose now
        (first (Table.select t.tokens (λ r. r.token_hash == Crypto.hash_token c raw) w.tokens)) w

  -- `_issue_token`
  unfoldable pub issue_token : ℕ → ℕ → ℕ → Purpose → ℕ → ℕ → World t → World t
  issue_token id raw user purpose ttl now w = record w {
    tokens =
        Table.insert t.tokens id
          (record {
            user_id = user;
            token_hash = Crypto.hash_token c raw;
            purpose = purpose;
            expires_at = now + ttl;
            used_at = none;
          })
          w.tokens;
  }

  -- The transaction of a flow: the token is used, the user's row is changed, and so are the sessions.
  abbrev pub commit :
      ℕ
      → ℕ
      → ℕ
      → (User → User)
      → (Table.State t.sessions → Table.State t.sessions)
      → World t
      → Result × World t
  commit now id user change sessions w =
      let (marked, tokens) = Table.update t.tokens id (λ r. true) (used now) w.tokens in
      let (changed, users) = Table.update t.users user (λ u. true) change w.users in
      if marked == 1 && changed == 1
      then (done user, record w { users = users; tokens = tokens; sessions = sessions w.sessions })
      else (stale, w)

  abbrev pub when_owner : World t → (User → Result × World t) → Option User → Result × World t
  when_owner w f none = (refused invalid_token, w)
  when_owner w f (some u) = f u

  abbrev pub when_usable :
      World t → (ℕ → EmailToken → User → Result × World t) → Checked → Result × World t
  when_usable w f (rejected r) = (refused r, w)
  when_usable w f (usable id row) = when_owner w (f id row) (Table.find t.users w.users row.user_id)

  abbrev pub verified : User → User
  verified u = record u { email_verified = true }

  unfoldable pub verify_email : Request (World t) → World t → Result × World t
  unfolding consume_token
  verify_email q w =
      when_usable w (λ id row u. commit q.now id row.user_id verified (λ s. s) (q.meanwhile w))
        (consume_token q.raw purpose_verify q.now w)

  abbrev pub with_password : ℕ → User → User
  with_password hash u = record u { password_hash = hash; email_verified = true }

  abbrev pub close_sessions : ℕ → ℕ → Table.State t.sessions → Table.State t.sessions
  close_sessions now user s = revoke_all t.sessions (λ u. true) (Crypto.hash_token c) 0 now user s

  -- What follows the reads of `reset_password`.
  abbrev pub write_reset : Request (World t) → World t → ℕ → EmailToken → User → Result × World t
  write_reset q w id row u =
      if Crypto.policy c q.new_password u
      then commit q.now id row.user_id
          (with_password (Crypto.hash_password c q.salt q.new_password))
          (close_sessions q.now row.user_id) (q.meanwhile w)
      else (refused weak_password, w)

  unfoldable pub reset_password : Request (World t) → World t → Result × World t
  unfolding consume_token
  reset_password q w = when_usable w (write_reset q w) (consume_token q.raw purpose_reset q.now w)

  -- `token_hash != keep_token_hash`, where there is a token to keep
  abbrev pub is_other : Option ℕ → RefreshToken → Bool
  is_other none r = true
  is_other (some kept) r = not (r.token_hash == kept)

  -- `change_password` of the user `id`, whose row the request has read as `u`.
  unfoldable pub change_password :
      ℕ → User → ℕ → Option ℕ → Request (World t) → World t → Result × World t
  change_password id u current keep_token_hash q w =
      if not (Crypto.verify_password c current u.password_hash)
      then (refused invalid_current_password, w)
      else if not (Crypto.policy c q.new_password u)
      then (refused weak_password, w)
      else write (q.meanwhile w)
    where
      write : World t → Result × World t
      write w =
          let (changed, users) =
            Table.update t.users id (λ u. true)
              (λ u. record u { password_hash = Crypto.hash_password c q.salt q.new_password })
              w.users in
          let ended =
            Table.update_all t.sessions
              (λ r. (r.user_id == id && is_live r) && is_other keep_token_hash r) (revoked q.now)
              w.sessions in
          if changed == 1
          then (
            done id,
            record w {
              users = users;
              sessions = end_rotation_grace t.sessions (λ u. true) (Crypto.hash_token c) 0 id ended;
            },
          )
          else (stale, w)

-- The kinds of account email; another text is only logged.
pub data EmailKind : Type 0 where
  email_verify email_existing email_reset unknown : EmailKind

module _ (c : Crypto) (t : Store) (verify_ttl reset_ttl : ℕ) where
  -- The messages of one user: `send_verification_email`, `send_existing_account_email` and
  -- `send_password_reset_email`, each of which mails the link of a new token.
  abbrev pub send_email : EmailKind → ℕ → ℕ → ℕ → ℕ → User → World t → World t
  send_email email_verify id raw now user u w =
      if u.email_verified then w else issue_token c t id raw user purpose_verify verify_ttl now w
  send_email email_existing id raw now user u w =
      issue_token c t id raw user purpose_reset reset_ttl now w
  send_email email_reset id raw now user u w =
      issue_token c t id raw user purpose_reset reset_ttl now w
  send_email unknown id raw now user u w = w

  unfoldable pub deliver_account_email : EmailKind → ℕ → ℕ → ℕ → ℕ → World t → World t
  unfolding issue_token
  deliver_account_email kind email id raw now w =
      to_user (first (Table.select t.users (λ u. u.email == email) w.users))
    where
      to_row : ℕ → Option User → World t
      to_row user none = w
      to_row user (some u) = send_email kind id raw now user u w

      to_user : Option ℕ → World t
      to_user none = w
      to_user (some user) = to_row user (Table.find t.users w.users user)

  -- The sweep's `delete(EmailToken).where(expires_at < now)`
  unfoldable pub prune_email_tokens : ℕ → World t → World t
  prune_email_tokens now w = record w {
    tokens = Table.delete_all t.tokens (λ r. ltb r.expires_at now) w.tokens;
  }
