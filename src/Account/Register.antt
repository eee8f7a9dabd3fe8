-- ===== src/Account/Register.antt =====
-- `register` and `authenticate` of backend/app/services/auth_service.py. `meanwhile` is what other
-- requests commit before this one's insert, which fails where a unique constraint would be broken, and
-- `between` what they commit before the checks that follow a failure.
pub mod Uniform
use shikomi.Prelude.{
  ℕ, ◌==◌, Bool, true, false, not, ◌&&◌, ◌||◌, Option, none, some, is_some, List, [], ◌∷◌,
  if◌then◌else◌,
}
use shikomi.Services.{Table}
use shikomi.Auth.{first}
use shikomi.Account.{User, Crypto, EmailKind, email_verify, email_existing}

-- What the request holds, with the salt and the id that are drawn for it.
pub record Signup (State : Type 0) : Type 0 where
  pub email : ℕ
  pub username : ℕ
  pub password : ℕ
  pub salt : ℕ
  pub new_id : ℕ
  pub meanwhile : State → State
  pub between : State → State
  -- whether the queue takes the email's job; a failure is only logged
  pub queue_works : Bool

-- `created` and `existing` are for the audit log only; `raised` is the insert's exception.
pub data Registered : Type 0 where
  created existing : ℕ → Registered
  weak_password username_taken raised : Registered

-- The status of the HTTP answer.
pub data Response : Type 0 where
  accepted unprocessable conflict internal : Response

unfoldable pub response : Registered → Response
response (created user) = accepted
response (existing user) = accepted
response weak_password = unprocessable
response username_taken = conflict
response raised = internal

-- The result, the users, and the jobs that are enqueued.
pub record Registration (State : Type 0) : Type 0 where
  pub result : Registered
  pub users : State
  pub mails : List (EmailKind × ℕ)

module _ (c : Crypto) (t : Table User) where
  abbrev pub by_email : ℕ → Table.State t → Option ℕ
  by_email email s = first (Table.select t (λ u. u.email == email) s)

  -- `_username_taken`
  abbrev pub is_taken : ℕ → Table.State t → Bool
  is_taken username s = is_some (first (Table.select t (λ u. u.username == username) s))

  abbrev pub candidate : Signup (Table.State t) → User
  candidate q = record {
    email = q.email;
    username = q.username;
    email_verified = false;
    password_hash = Crypto.hash_password c q.salt q.password;
  }

  abbrev pub enqueue_email : Signup (Table.State t) → EmailKind → List (EmailKind × ℕ)
  enqueue_email q kind = if q.queue_works then (kind, q.email) ∷ [] else []

  abbrev pub refuse : Registered → Table.State t → Registration (Table.State t)
  refuse r s = record { result = r; users = s; mails = [] }

  -- A taken email: the owner is told by mail.
  abbrev pub tell_owner : Signup (Table.State t) → ℕ → Table.State t → Registration (Table.State t)
  tell_owner q user s = record {
    result = existing user;
    users = s;
    mails = enqueue_email q email_existing;
  }

  -- After a failed insert whose username is free: the email's owner, or the exception once more.
  abbrev pub tell_or_raise :
      Signup (Table.State t) → Table.State t → Option ℕ → Registration (Table.State t)
  tell_or_raise q s (some user) = tell_owner q user s
  tell_or_raise q s none = refuse raised s

  -- After a failed insert: which constraint it broke.
  abbrev pub insert_failed : Signup (Table.State t) → Table.State t → Registration (Table.State t)
  insert_failed q s =
      if is_taken q.username s
      then refuse username_taken s
      else tell_or_raise q s (by_email q.email s)

  abbrev pub inserted : Signup (Table.State t) → Table.State t → Registration (Table.State t)
  inserted q s = record {
    result = created q.new_id;
    users = Table.insert t q.new_id (candidate q) s;
    mails = enqueue_email q email_verify;
  }

  -- The insert, and what follows where it fails.
  abbrev pub insert_user : Signup (Table.State t) → Table.State t → Registration (Table.State t)
  insert_user q s =
      if is_taken q.username s || is_some (by_email q.email s)
      then insert_failed q (q.between s)
      else inserted q s

  abbrev pub check_email :
      Signup (Table.State t) → Table.State t → Option ℕ → Registration (Table.State t)
  check_email q s (some user) = tell_owner q user s
  check_email q s none = insert_user q (q.meanwhile s)

  unfoldable pub register : Signup (Table.State t) → Table.State t → Registration (Table.State t)
  register q s =
      if not (Crypto.policy c q.password (candidate q))
      then refuse weak_password s
      else if is_taken q.username s
      then refuse username_taken s
      else check_email q s (by_email q.email s)

  abbrev pub check_user : ℕ → ℕ → Option User → Option ℕ
  check_user password user none = none
  check_user password user (some u) =
      if not (Crypto.verify_password c password u.password_hash) || not u.email_verified
      then none
      else some user

  abbrev pub check_id : ℕ → Table.State t → Option ℕ → Option ℕ
  check_id password s none = none
  check_id password s (some user) = check_user password user (Table.find t s user)

  -- `authenticate`: the user, or `None`
  unfoldable pub authenticate : ℕ → ℕ → Table.State t → Option ℕ
  authenticate email password s = check_id password s (by_email email s)
