-- ===== src/Tests/Auth.antt =====
-- A token that is issued, rotated, replayed in the grace and replayed again.
use shikomi.Prelude.{ℕ, ◌≡◌, ◌≤◌, refl, Bool, true, List, none, some, [], ◌∷◌, ◌==◌, if◌then◌else◌}
use shikomi.Services.{Table}
use shikomi.Auth.{
  RefreshToken, Request, refused, refresh_reuse, lookup, issue_refresh_token, rotate_refresh_token,
}
use shikomi.Auth.Uses.{Calm}
use shikomi.Auth.Reuse.{IsClosed, rotate_refresh_token-reuse}
use shikomi.Auth.History.{Event, exchange, claim, logout, sweep, exchanges, exchanges_le_two}
use shikomi.Tests.Instances.{table, Rows}

abbrev users : ℕ → Bool
users n = true

abbrev hash : ℕ → ℕ
hash n = n

abbrev attempt : ℕ → ℕ → Request (Rows RefreshToken)
attempt now id = record {
  raw_token = 77;
  now = now;
  new_id = id;
  new_raw = id;
  meanwhile = λ s. s;
  between = λ s. s;
}

calm : (now : ℕ) → Calm table users hash 900 (attempt now 5) 1
calm now = record { meanwhile_id = λ s. refl; between_id = λ s. refl; new_id = refl }

-- The row as two requests have read it.
abbrev read : RefreshToken
read = record {
  user_id = 3;
  token_hash = 77;
  expires_at = 910;
  revoked_at = none;
  rotated_at = none;
  persistent = true;
}

abbrev events : List (Event table users hash 900)
events =
    claim (attempt 20 5) 1 read
    ∷ claim (attempt 20 5) 1 read
    ∷ exchange (attempt 23 5)
    ∷ logout 24 77
    ∷ sweep 25
    ∷ []

exchanges_le_two_example :
    exchanges table users hash 900 1 events
      (issue_refresh_token table users hash 900 3 1 77 10 true ([], λ n. none))
    ≤ 2
exchanges_le_two_example =
    exchanges_le_two table users hash 900 3 1 77 10 true events ([], λ n. none)
      (calm 20, (calm 20, (calm 23, (tt, (tt, tt)))))

-- A token that a logout revoked, beside another session of the same user.
abbrev old : RefreshToken
old = record {
  user_id = 3;
  token_hash = 77;
  expires_at = 900;
  revoked_at = some 10;
  rotated_at = none;
  persistent = true;
}

abbrev other : RefreshToken
other = record old { token_hash = 78; revoked_at = none }

abbrev stored : Rows RefreshToken
stored = (1 ∷ 2 ∷ [], λ j. some (if j == 1 then old else other))

lookup-lem : lookup table users hash 900 77 stored ≡ some 1
unfolding lookup
lookup-lem = refl

rotate_refresh_token-reuse_example :
    ((rotate_refresh_token table users hash 900 (attempt 20 5) stored).0 ≡ refused refresh_reuse)
    × IsClosed 3
        (Table.find table (rotate_refresh_token table users hash 900 (attempt 20 5) stored).1 2)
rotate_refresh_token-reuse_example =
    rotate_refresh_token-reuse table users hash 900 (attempt 20 5) 1 2 old stored lookup-lem refl
      refl refl
