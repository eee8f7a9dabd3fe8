-- ===== src/Auth/Reuse.antt =====
-- The branch of `rotate_refresh_token` for a token that is replayed.
use shikomi.Prelude.{
  ℕ, ◌≡◌, refl, Bool, true, false, ◌&&◌, Option, none, some, is_some, arith, inl, inr, Bool-cases,
  ◌==◌,
}
use shikomi.Services.{Table, revise}
use shikomi.Auth.{
  RefreshToken, Request, refused, refresh_reuse, is_live, revoked, without_grace, in_grace, lookup,
  revoke_all, end_rotation_grace, rotate_revoked, rotate_refresh_token,
}

-- The row, if it is the user's, is revoked and outside every grace.
abbrev pub IsClosed : ℕ → Option RefreshToken → Type 0
IsClosed user none = Unit
IsClosed user (some r) =
    (r.user_id == user) ≡ true → (is_live r ≡ false) × (is_some r.rotated_at ≡ false)

closed :
    (user now : ℕ) (o : Option RefreshToken)
    → IsClosed user (
        revise
          (λ r. r.user_id == user && is_some r.rotated_at)
          without_grace
          (revise (λ r. r.user_id == user && is_live r) (revoked now) o))
closed user now none = tt
closed user now (some r) = ground arith

module _ (t : Table RefreshToken) (users : ℕ → Bool) (hash : ℕ → ℕ) (ttl : ℕ) where
  pub find-revoke_all :
      (user now j : ℕ) (s : Table.State t)
      → IsClosed user (Table.find t (revoke_all t users hash ttl now user s) j)
  unfolding revoke_all end_rotation_grace
  find-revoke_all user now j s =
      rw (Table.find-update_all t, Table.find-update_all t) (closed user now (Table.find t s j))

  -- A revoked token that is presented outside the grace is refused as reuse, and every session of its
  -- user is then revoked and outside every grace.
  pub rotate_refresh_token-reuse :
      (q : Request (Table.State t)) (k j : ℕ) (row : RefreshToken) (s : Table.State t)
      → lookup t users hash ttl q.raw_token s ≡ some k
      → Table.find t s k ≡ some row
      → is_live row ≡ false
      → in_grace q.now row ≡ false
      → ((rotate_refresh_token t users hash ttl q s).0 ≡ refused refresh_reuse)
        × IsClosed row.user_id (Table.find t (rotate_refresh_token t users hash ttl q s).1 j)
  unfolding rotate_refresh_token rotate_revoked
  rotate_refresh_token-reuse q k j row s found e dead late =
      rw (found, e)
        (elim (Bool-cases (is_some row.revoked_at)) [
          | inl d ↦ simp (d, late) (refl, find-revoke_all row.user_id q.now j s)
          | inr g ↦ absurd (ground (arith, g, dead))
        ])
