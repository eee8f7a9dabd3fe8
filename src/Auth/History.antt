-- ===== src/Auth/History.antt =====
-- Any interleaving of requests with logouts and sweeps on the stored tokens. A request reads a row,
-- which changes nothing, and then runs its conditional update: `claim` and `spend` are the updates of
-- a request that read `row` for the token `k` at any time before. A claim that finds the token taken
-- changes nothing either, so that a request whose claim fails and which then spends the grace after
-- others have run is the event `spend` with the row that it read again. A logout and a sweep run whole.
use shikomi.Prelude.{
  ℕ, ◌≡◌, refl, ◌≤◌, ◌+◌, Bool, Option, none, some, List, [], ◌∷◌, arith, ◌==◌, ==_refl,
  if◌then◌else◌,
}
use shikomi.Services.{Table}
use shikomi.Auth.{
  RefreshToken, Request, Result, lookup, issue_refresh_token, when_found, rotate_refresh_token,
  rotate_active, rotate_revoked, revoke_refresh_token, prune_tokens,
}
use shikomi.Auth.Uses.{
  win, left, Calm, left-revoke_refresh_token, left-prune_tokens, found-Charges,
  rotate_active-Charges, rotate_revoked-Charges,
}

module _ (t : Table RefreshToken) (users : ℕ → Bool) (hash : ℕ → ℕ) (ttl : ℕ) where
  pub data Event : Type 0 where
    exchange : Request (Table.State t) → Event
    claim spend : Request (Table.State t) → ℕ → RefreshToken → Event
    logout : ℕ → ℕ → Event
    sweep : ℕ → Event

  unfoldable pub after : Event → Table.State t → Table.State t
  after (exchange q) s = (rotate_refresh_token t users hash ttl q s).1
  after (claim q k row) s = (rotate_active t users hash ttl q k row s).1
  after (spend q k row) s = (rotate_revoked t users hash ttl q k row s).1
  after (logout now raw) s = revoke_refresh_token t users hash ttl now raw s
  after (sweep now) s = prune_tokens t users hash ttl now s

  abbrev credit : ℕ → Option ℕ → Result → ℕ
  credit id none r = 0
  credit id (some k) r = if k == id then win r else 0

  -- One if the event exchanged the token `id` for a new session.
  unfoldable pub exchanged : ℕ → Event → Table.State t → ℕ
  exchanged id (exchange q) s =
      credit id (lookup t users hash ttl q.raw_token s)
        (rotate_refresh_token t users hash ttl q s).0
  exchanged id (claim q k row) s = credit id (some k) (rotate_active t users hash ttl q k row s).0
  exchanged id (spend q k row) s = credit id (some k) (rotate_revoked t users hash ttl q k row s).0
  exchanged id (logout now raw) s = 0
  exchanged id (sweep now) s = 0

  unfoldable pub exchanges : ℕ → List Event → Table.State t → ℕ
  exchanges id [] s = 0
  exchanges id (e ∷ es) s = exchanged id e s + exchanges id es (after e s)

  abbrev pub CalmEvent : ℕ → Event → Type 0
  CalmEvent id (exchange q) = Calm t users hash ttl q id
  CalmEvent id (claim q k row) = Calm t users hash ttl q id
  CalmEvent id (spend q k row) = Calm t users hash ttl q id
  CalmEvent id (logout now raw) = Unit
  CalmEvent id (sweep now) = Unit

  abbrev pub AllCalm : ℕ → List Event → Type 0
  AllCalm id [] = Unit
  AllCalm id (e ∷ es) = CalmEvent id e × AllCalm id es

  exchanged_le :
      (id : ℕ) (e : Event) (s : Table.State t)
      → CalmEvent id e
      → left t users hash ttl id (after e s) + exchanged id e s ≤ left t users hash ttl id s
  unfolding after exchanged rotate_refresh_token
  exchanged_le id (exchange q) s c = go (lookup t users hash ttl q.raw_token s)
    where
      go :
          (o : Option ℕ)
          → left t users hash ttl id (when_found t users hash ttl q o s).1
              + credit id o (when_found t users hash ttl q o s).0
            ≤ left t users hash ttl id s
      go none = omega arith
      go (some k) = found-Charges t users hash ttl q id k c s
  exchanged_le id (claim q k row) s c =
      rotate_active-Charges t users hash ttl q id k c row (left t users hash ttl id s) s
        (omega arith)
  exchanged_le id (spend q k row) s c =
      rotate_revoked-Charges t users hash ttl q id k c row (left t users hash ttl id s) s
        (omega arith)
  exchanged_le id (logout now raw) s c =
      let le = left-revoke_refresh_token t users hash ttl now raw id s in omega arith
  exchanged_le id (sweep now) s c =
      let le = left-prune_tokens t users hash ttl now id s in omega arith

  exchanges_le_left :
      (id : ℕ) (es : List Event) (s : Table.State t)
      → AllCalm id es
      → exchanges id es s ≤ left t users hash ttl id s
  unfolding exchanges
  exchanges_le_left id [] s c = omega arith
  exchanges_le_left id (e ∷ es) s (c, cs) =
      let one = exchanged_le id e s c in
      let rest = exchanges_le_left id es (after e s) cs in omega arith

  -- A token that was issued is exchanged for a session at most twice, once by its rotation and once in
  -- the grace after it, in any interleaving of the updates of requests, which may have read any row
  -- before, with whole logouts and sweeps, provided that the rows that the requests add have other ids.
  pub exchanges_le_two :
      (user id raw now : ℕ) (persistent : Bool) (es : List Event) (s : Table.State t)
      → AllCalm id es
      → exchanges id es (issue_refresh_token t users hash ttl user id raw now persistent s) ≤ 2
  unfolding issue_refresh_token
  exchanges_le_two user id raw now persistent es s c =
      let le =
        exchanges_le_left id es (issue_refresh_token t users hash ttl user id raw now persistent s)
          c in
      let two : left t users hash ttl id
            (issue_refresh_token t users hash ttl user id raw now persistent s)
          ≡ 2 =
        rw (Table.find-insert t, ==_refl id) refl in
      omega arith
