-- ===== src/Auth.antt =====
-- backend/app/services/auth_service.py, `end_rotation_grace` of account_service.py and the pruning of
-- backend/worker/sweeper.py: the life of a refresh token. Times are in seconds; a raw token and its
-- hash are numbers, and the hash is a parameter. `meanwhile` and `between` are what other requests
-- commit before the claim and before the grace update of this one.
pub mod Reuse
pub mod Uses
pub mod History
use shikomi.Prelude.{
  ℕ, ◌+◌, ◌-◌, ◌==◌, Bool, true, false, not, ◌&&◌, ◌||◌, ltb, leb, Option, none, some, List, [],
  ◌∷◌, is_some, if◌then◌else◌,
}
use shikomi.Services.{Table}

pub record RefreshToken : Type 0 where
  pub user_id : ℕ
  pub token_hash : ℕ
  pub expires_at : ℕ
  pub revoked_at : Option ℕ
  pub rotated_at : Option ℕ
  pub persistent : Bool

pub data Refusal : Type 0 where
  invalid_refresh refresh_expired refresh_reuse row_gone : Refusal

-- `issued user raw persistent` is what the caller gets back.
pub data Result : Type 0 where
  issued : ℕ → ℕ → Bool → Result
  refused : Refusal → Result

-- REFRESH_GRACE_SECONDS, and TOKEN_RETENTION in seconds
abbrev pub refresh_grace_seconds : ℕ
refresh_grace_seconds = 10

abbrev pub token_retention : ℕ
token_retention = 5184000

-- A comparison with NULL is not true.
abbrev pub before : Option ℕ → ℕ → Bool
before none t = false
before (some d) t = ltb d t

abbrev pub is_at : Option ℕ → Option ℕ → Bool
is_at (some d) (some e) = d == e
is_at _ _ = false

abbrev pub in_grace : ℕ → RefreshToken → Bool
in_grace now r = ltb now r.expires_at && within r.rotated_at
  where
    within : Option ℕ → Bool
    within none = false
    within (some d) = leb now (d + refresh_grace_seconds)

abbrev pub first : List ℕ → Option ℕ
first [] = none
first (id ∷ ids) = some id

-- `revoked_at IS NULL`, and the values that the updates set.
abbrev pub is_live : RefreshToken → Bool
is_live r = not (is_some r.revoked_at)

abbrev pub consumed : ℕ → RefreshToken → RefreshToken
consumed now r = record r { revoked_at = some now; rotated_at = some now }

abbrev pub revoked : ℕ → RefreshToken → RefreshToken
revoked now r = record r { revoked_at = some now }

abbrev pub without_grace : RefreshToken → RefreshToken
without_grace r = record r { rotated_at = none }

-- One call of `rotate_refresh_token`, and what it draws.
pub record Request (State : Type 0) : Type 0 where
  pub raw_token : ℕ
  pub now : ℕ
  pub new_id : ℕ
  pub new_raw : ℕ
  pub meanwhile : State → State
  pub between : State → State

module _ (t : Table RefreshToken) (users : ℕ → Bool) (hash : ℕ → ℕ) (ttl : ℕ) where
  -- `select(RefreshToken).where(token_hash == hash)`: the hash is unique.
  unfoldable pub lookup : ℕ → Table.State t → Option ℕ
  lookup raw s = first (Table.select t (λ r. r.token_hash == hash raw) s)

  abbrev pub new_token : ℕ → ℕ → ℕ → Bool → RefreshToken
  new_token user raw now persistent = record {
    user_id = user;
    token_hash = hash raw;
    expires_at = now + ttl;
    revoked_at = none;
    rotated_at = none;
    persistent = persistent;
  }

  unfoldable pub issue_refresh_token : ℕ → ℕ → ℕ → ℕ → Bool → Table.State t → Table.State t
  issue_refresh_token user id raw now persistent s =
      Table.insert t id (new_token user raw now persistent) s

  unfoldable pub end_rotation_grace : ℕ → Table.State t → Table.State t
  end_rotation_grace user s =
      Table.update_all t (λ r. r.user_id == user && is_some r.rotated_at) without_grace s

  unfoldable pub revoke_all : ℕ → ℕ → Table.State t → Table.State t
  revoke_all now user s =
      end_rotation_grace user
        (Table.update_all t (λ r. r.user_id == user && is_live r) (revoked now) s)

  -- `_issue_successor`
  unfoldable pub issue_successor :
      Request (Table.State t) → RefreshToken → Table.State t → Result × Table.State t
  issue_successor q row s =
      if users row.user_id
      then (
        issued row.user_id q.new_raw row.persistent,
        issue_refresh_token row.user_id q.new_id q.new_raw q.now row.persistent s,
      )
      else (refused invalid_refresh, s)

  abbrev pub reuse : Request (Table.State t) → RefreshToken → Table.State t → Result × Table.State t
  reuse q row s = (refused refresh_reuse, revoke_all q.now row.user_id s)

  abbrev pub when_spent :
      Request (Table.State t) → RefreshToken → ℕ × Table.State t → Result × Table.State t
  when_spent q row (count, s) = if count == 1 then issue_successor q row s else reuse q row s

  -- A token that was revoked already: a concurrent request within the grace, or reuse.
  unfoldable pub rotate_revoked :
      Request (Table.State t) → ℕ → RefreshToken → Table.State t → Result × Table.State t
  rotate_revoked q id row s =
      if in_grace q.now row
      then when_spent q row
          (Table.update t id (λ r. is_at r.rotated_at row.rotated_at) without_grace (q.between s))
      else reuse q row s

  abbrev pub when_refreshed :
      Request (Table.State t) → ℕ → Option RefreshToken → Table.State t → Result × Table.State t
  when_refreshed q id none s = (refused row_gone, s)
  when_refreshed q id (some row) s = rotate_revoked q id row s

  abbrev pub when_claimed :
      Request (Table.State t) → ℕ → RefreshToken → ℕ × Table.State t → Result × Table.State t
  when_claimed q id row (count, s) =
      if count == 1 then issue_successor q row s else when_refreshed q id (Table.find t s id) s

  -- A token that is not revoked when it is read: the claim is one conditional update.
  unfoldable pub rotate_active :
      Request (Table.State t) → ℕ → RefreshToken → Table.State t → Result × Table.State t
  rotate_active q id row s =
      if leb row.expires_at q.now
      then (refused refresh_expired, s)
      else when_claimed q id row (Table.update t id is_live (consumed q.now) (q.meanwhile s))

  abbrev pub when_row :
      Request (Table.State t) → ℕ → Option RefreshToken → Table.State t → Result × Table.State t
  when_row q id none s = (refused invalid_refresh, s)
  when_row q id (some row) s =
      if is_some row.revoked_at then rotate_revoked q id row s else rotate_active q id row s

  abbrev pub when_found :
      Request (Table.State t) → Option ℕ → Table.State t → Result × Table.State t
  when_found q none s = (refused invalid_refresh, s)
  when_found q (some id) s = when_row q id (Table.find t s id) s

  unfoldable pub rotate_refresh_token :
      Request (Table.State t) → Table.State t → Result × Table.State t
  rotate_refresh_token q s = when_found q (lookup q.raw_token s) s

  abbrev pub revoke_row : ℕ → ℕ → Option RefreshToken → Table.State t → Table.State t
  revoke_row now id none s = s
  revoke_row now id (some row) s =
      if is_some row.revoked_at
      then s
      else end_rotation_grace row.user_id (Table.update t id (λ r. true) (revoked now) s).1

  abbrev pub revoke_found : ℕ → Option ℕ → Table.State t → Table.State t
  revoke_found now none s = s
  revoke_found now (some id) s = revoke_row now id (Table.find t s id) s

  -- Logout.
  unfoldable pub revoke_refresh_token : ℕ → ℕ → Table.State t → Table.State t
  revoke_refresh_token now raw s = revoke_found now (lookup raw s) s

  -- The sweep's `delete(RefreshToken)`: `now - TOKEN_RETENTION` is the cutoff.
  unfoldable pub prune_tokens : ℕ → Table.State t → Table.State t
  prune_tokens now s =
      Table.delete_all t
        (λ r.
          ltb (r.expires_at + token_retention) now || before r.revoked_at (now - token_retention))
        s
