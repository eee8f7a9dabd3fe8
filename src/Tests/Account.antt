-- ===== src/Tests/Account.antt =====
-- A reset link, used once, and by two requests at the same time.
use shikomi.Prelude.{ℕ, ◌≡◌, refl, ◌==◌, ==_refl, true, false, none, some, [], ◌∷◌}
use shikomi.Auth.{RefreshToken}
use shikomi.Account.{
  purpose_reset, User, done, refused, token_used, Crypto, Store, World, Request, reset_password,
  issue_token,
}
use shikomi.Account.Reset.{Outcome, reset_password-Outcome}
use shikomi.Account.Register.{Signup, created, existing, register}
use shikomi.Account.Register.Uniform.{IsUndisturbed, seen, Locked, register-uniform}
use shikomi.Tests.Instances.{table, Rows}

abbrev crypto : Crypto
crypto = record {
  hash_token = λ raw. raw;
  hash_password = λ salt p. p;
  verify_password = λ p hash. p == hash;
  verify-hash = λ salt p. ==_refl p;
  policy = λ p u. true;
}

abbrev store : Store
store = record { users = table; tokens = table; sessions = table }

abbrev owner : User
owner = record { username = 6; email = 8; email_verified = false; password_hash = 11 }

abbrev session : RefreshToken
session = record {
  user_id = 3;
  token_hash = 40;
  expires_at = 900;
  revoked_at = none;
  rotated_at = none;
  persistent = true;
}

abbrev before : World store
before = issue_token crypto store 1 77 3 purpose_reset 60 10 (record {
  users = (3 ∷ [], λ n. some owner);
  tokens = ([], λ n. none);
  sessions = (5 ∷ [], λ n. some session);
})

abbrev reset_to : ℕ → (World store → World store) → Request (World store)
reset_to p meanwhile = record {
  raw = 77;
  new_password = p;
  salt = 0;
  now = 20;
  meanwhile = meanwhile;
}

abbrev alone : Request (World store)
alone = reset_to 12 (λ w. w)

reset_password-Outcome_example :
    Outcome crypto store alone before (reset_password crypto store alone before)
reset_password-Outcome_example = reset_password-Outcome crypto store alone before

reset_password-alone : (reset_password crypto store alone before).0 ≡ done 3
unfolding reset_password issue_token
reset_password-alone = refl

reset_password-again :
    (reset_password crypto store alone (reset_password crypto store alone before).1).0
    ≡ refused token_used
unfolding reset_password issue_token
reset_password-again = refl

-- Another request uses the same link between this one's reads and its writes.
abbrev raced : Request (World store)
raced = reset_to 13 (λ w. (reset_password crypto store alone w).1)

reset_password-raced : (reset_password crypto store raced before).0 ≡ done 3
unfolding reset_password issue_token
reset_password-raced = refl

abbrev signup : Signup (Rows User)
signup = record {
  email = 9;
  username = 7;
  password = 14;
  salt = 0;
  new_id = 4;
  meanwhile = λ s. s;
  between = λ s. s;
  queue_works = true;
}

-- The email is new here, and taken there.
abbrev here : Rows User
here = (3 ∷ [], λ n. some owner)

abbrev there : Rows User
there = (3 ∷ [], λ n. some (record owner { email = 9 }))

IsUndisturbed-here : IsUndisturbed crypto table signup here
IsUndisturbed-here = record { name_kept = refl; name_kept_after = refl; email_kept = refl }

IsUndisturbed-there : IsUndisturbed crypto table signup there
IsUndisturbed-there = record { name_kept = refl; name_kept_after = refl; email_kept = refl }

register-uniform_example :
    (seen crypto table (register crypto table signup here)
      ≡ seen crypto table (register crypto table signup there))
    × Locked crypto table signup (register crypto table signup here)
register-uniform_example =
    register-uniform crypto table signup here there refl IsUndisturbed-here IsUndisturbed-there

register-here : (register crypto table signup here).result ≡ created 4
unfolding register
register-here = refl

register-there : (register crypto table signup there).result ≡ existing 3
unfolding register
register-there = refl
