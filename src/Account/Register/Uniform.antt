-- ===== src/Account/Register/Uniform.antt =====
-- What a signup shows to its sender.
use mathlib.Core.Option.{none-ne-some, some-injective}
use shikomi.Prelude.{
  ℕ, ◌≡◌, refl, ap, ◌∙◌, sym, ◌==◌, Bool, true, false, not, Option, none, some, is_some, List, [],
  ◌∷◌, length, if◌then◌else◌, Bool-cases, inl, inr, arith, ◌||◌,
}
use shikomi.Services.{Table, among, matched}
use shikomi.Auth.{first}
use shikomi.Account.{User, Crypto, EmailKind, email_verify, email_existing}
use shikomi.Account.Register.{
  Signup, Registered, created, weak_password, username_taken, Response, accepted, unprocessable,
  conflict, response, Registration, by_email, is_taken, candidate, enqueue_email, refuse,
  tell_or_raise, insert_failed, inserted, insert_user, check_email, register, check_user, check_id,
  authenticate,
}

module _ (c : Crypto) (t : Table User) where
  -- What the sender of a signup sees: the answer, and how many mails it sets off.
  abbrev pub seen : Registration (Table.State t) → Response × ℕ
  seen r = (response r.result, length r.mails)

  -- The answer by the password and the username alone.
  answer : Signup (Table.State t) → Bool → Bool → Response × ℕ
  answer q false taken = (unprocessable, 0)
  answer q true true = (conflict, 0)
  answer q true false = (accepted, if q.queue_works then 1 else 0)

  length-enqueue_email :
      (q : Signup (Table.State t)) (kind : EmailKind)
      → length (enqueue_email c t q kind) ≡ (if q.queue_works then 1 else 0)
  length-enqueue_email q kind = elim (Bool-cases q.queue_works) [
    | inl e ↦ simp e refl
    | inr f ↦ simp f refl
  ]

  -- What other requests do meanwhile: nobody takes or frees the username, and nobody frees the email
  -- between a failed insert and the checks that follow it.
  pub record IsUndisturbed (q : Signup (Table.State t)) (s : Table.State t) : Type 0 where
    pub name_kept : is_taken c t q.username (q.meanwhile s) ≡ is_taken c t q.username s
    pub name_kept_after :
        is_taken c t q.username (q.between (q.meanwhile s)) ≡ is_taken c t q.username s
    pub email_kept :
        is_some (by_email c t q.email (q.between (q.meanwhile s)))
        ≡ is_some (by_email c t q.email (q.meanwhile s))

  seen-tell_or_raise :
      (q : Signup (Table.State t)) (s : Table.State t) (o : Option ℕ)
      → is_some o ≡ true
      → seen (tell_or_raise c t q s o) ≡ answer q true false
  unfolding answer response
  seen-tell_or_raise q s none h = absurd (ground (arith, h))
  seen-tell_or_raise q s (some user) h =
      ap (λ n. (accepted, n)) (length-enqueue_email q email_existing)

  seen-insert_failed :
      (q : Signup (Table.State t)) (s : Table.State t)
      → is_taken c t q.username s ≡ false
      → is_some (by_email c t q.email s) ≡ true
      → seen (insert_failed c t q s) ≡ answer q true false
  seen-insert_failed q s free owned =
      ap
        (λ b. seen (
          if b
          then refuse c t username_taken s
          else tell_or_raise c t q s (by_email c t q.email s)))
        free
      ∙ seen-tell_or_raise q s (by_email c t q.email s) owned

  seen-insert_user :
      (q : Signup (Table.State t)) (s : Table.State t)
      → is_taken c t q.username s ≡ false
      → is_taken c t q.username (q.between s) ≡ false
      → is_some (by_email c t q.email (q.between s)) ≡ is_some (by_email c t q.email s)
      → seen (insert_user c t q s) ≡ answer q true false
  unfolding answer response
  seen-insert_user q s free still kept =
      ap
        (λ b. seen (
          if b || is_some (by_email c t q.email s)
          then insert_failed c t q (q.between s)
          else inserted c t q s))
        free
      ∙ go (is_some (by_email c t q.email s)) refl
    where
      go :
          (owned : Bool)
          → is_some (by_email c t q.email s) ≡ owned
          → seen (if owned then insert_failed c t q (q.between s) else inserted c t q s)
            ≡ answer q true false
      go true e = seen-insert_failed q (q.between s) still (kept ∙ e)
      go false e = ap (λ n. (accepted, n)) (length-enqueue_email q email_verify)

  seen-check_email :
      (q : Signup (Table.State t)) (s : Table.State t) (o : Option ℕ)
      → IsUndisturbed q s
      → is_taken c t q.username s ≡ false
      → seen (check_email c t q s o) ≡ answer q true false
  unfolding answer response
  seen-check_email q s (some user) calm free =
      ap (λ n. (accepted, n)) (length-enqueue_email q email_existing)
  seen-check_email q s none calm free =
      seen-insert_user q (q.meanwhile s) (calm.name_kept ∙ free) (calm.name_kept_after ∙ free)
        calm.email_kept

  seen-register :
      (q : Signup (Table.State t)) (s : Table.State t)
      → IsUndisturbed q s
      → seen (register c t q s)
        ≡ answer q (Crypto.policy c q.password (candidate c t q)) (is_taken c t q.username s)
  unfolding register answer response
  seen-register q s calm =
      go (Crypto.policy c q.password (candidate c t q)) (is_taken c t q.username s) refl
    where
      go :
          (strong taken : Bool)
          → is_taken c t q.username s ≡ taken
          → seen (
              if not strong
              then refuse c t weak_password s
              else if taken
              then refuse c t username_taken s
              else check_email c t q s (by_email c t q.email s))
            ≡ answer q strong taken
      go false taken e = refl
      go true true e = refl
      go true false e = seen-check_email q s (by_email c t q.email s) calm e

  first-among : (ids : List ℕ) (k : ℕ) → first ids ≡ some k → among k ids ≡ true
  first-among [] k e = absurd (none-ne-some k e)
  first-among (j ∷ ids) k e = let same : j ≡ k = some-injective j k e in ground arith

  first-none : (ids : List ℕ) (k : ℕ) → first ids ≡ none → among k ids ≡ false
  first-none [] k e = refl
  first-none (j ∷ ids) k e = absurd (none-ne-some j (sym e))

  check_user-candidate :
      (q : Signup (Table.State t)) (password k : ℕ)
      → check_user c t password k (some (candidate c t q)) ≡ none
  check_user-candidate q password k =
      elim (Bool-cases
        (Crypto.verify_password c password (Crypto.hash_password c q.salt q.password))) [
          | inl e ↦ simp e refl
          | inr f ↦ simp f refl
        ]

  authenticate-insert :
      (q : Signup (Table.State t)) (s : Table.State t) (password : ℕ)
      → by_email c t q.email s ≡ none
      → authenticate c t q.email password (Table.insert t q.new_id (candidate c t q) s) ≡ none
  unfolding authenticate
  authenticate-insert q s password free = go (by_email c t q.email later) refl
    where
      later : Table.State t
      later = Table.insert t q.new_id (candidate c t q) s

      found : (k : ℕ) → (q.new_id == k) ≡ true → Table.find t later k ≡ some (candidate c t q)
      found k same = Table.find-insert t q.new_id k (candidate c t q) s ∙ rw same refl

      kept :
          (k : ℕ)
          → (q.new_id == k) ≡ false
          → (if q.new_id == k then some (candidate c t q) else Table.find t s k) ≡ Table.find t s k
      kept k apart = rw apart refl

      go : (o : Option ℕ) → by_email c t q.email later ≡ o → check_id c t password later o ≡ none
      go none e = refl
      go (some k) e = elim (Bool-cases (q.new_id == k)) [
        | inl same ↦
            ap (check_user c t password k) (found k same) ∙ check_user-candidate q password k
        | inr apart ↦
            let row = Table.find-insert t q.new_id k (candidate c t q) s ∙ kept k apart in
            let listed : among k (Table.select t (λ u. u.email == q.email) s) ≡ true =
              Table.mem-select t k (λ u. u.email == q.email) s
              ∙ ap (λ o. matched (λ u. u.email == q.email) o == 1) (sym row)
              ∙ sym (Table.mem-select t k (λ u. u.email == q.email) later)
              ∙ first-among (Table.select t (λ u. u.email == q.email) later) k e in
            absurd (
              ground (
                arith,
                sym listed ∙ first-none (Table.select t (λ u. u.email == q.email) s) k free,
              ))
      ]

  -- A registration that creates no user, or one whose email cannot log in.
  unfoldable pub Locked : Signup (Table.State t) → Registration (Table.State t) → Type 0
  Locked q r =
      (k : ℕ)
      → r.result ≡ created k
      → (password : ℕ) → authenticate c t q.email password r.users ≡ none

  abbrev is_created : Registered → Bool
  is_created (created k) = true
  is_created _ = false

  uncreated-Locked :
      (q : Signup (Table.State t)) (r : Registration (Table.State t))
      → is_created r.result ≡ false
      → Locked q r
  unfolding Locked
  uncreated-Locked q r h k made = absurd (ground (arith, sym h ∙ ap is_created made))

  tell_or_raise-uncreated :
      (q : Signup (Table.State t)) (s : Table.State t) (o : Option ℕ)
      → is_created (tell_or_raise c t q s o).result ≡ false
  tell_or_raise-uncreated q s none = refl
  tell_or_raise-uncreated q s (some user) = refl

  insert_failed-uncreated :
      (q : Signup (Table.State t)) (s : Table.State t)
      → is_created (insert_failed c t q s).result ≡ false
  insert_failed-uncreated q s = elim (Bool-cases (is_taken c t q.username s)) [
    | inl e ↦ simp e refl
    | inr g ↦ simp g (tell_or_raise-uncreated q s (by_email c t q.email s))
  ]

  created-Locked :
      (q : Signup (Table.State t)) (s : Table.State t)
      → by_email c t q.email s ≡ none
      → Locked q (inserted c t q s)
  unfolding Locked
  created-Locked q s e k made password = authenticate-insert q s password e

  insert_user-Locked :
      (q : Signup (Table.State t)) (s : Table.State t) → Locked q (insert_user c t q s)
  insert_user-Locked q s = go (is_taken c t q.username s) (by_email c t q.email s) refl
    where
      go :
          (taken : Bool) (o : Option ℕ)
          → by_email c t q.email s ≡ o
          → Locked q
              (if taken || is_some o then insert_failed c t q (q.between s) else inserted c t q s)
      go true o e = uncreated-Locked q _ (insert_failed-uncreated q (q.between s))
      go false (some user) e = uncreated-Locked q _ (insert_failed-uncreated q (q.between s))
      go false none e = created-Locked q s e

  register-Locked : (q : Signup (Table.State t)) (s : Table.State t) → Locked q (register c t q s)
  unfolding register
  register-Locked q s =
      go (Crypto.policy c q.password (candidate c t q)) (is_taken c t q.username s)
        (by_email c t q.email s)
    where
      go :
          (strong taken : Bool) (o : Option ℕ)
          → Locked q (
              if not strong
              then refuse c t weak_password s
              else if taken
              then refuse c t username_taken s
              else check_email c t q s o)
      go false taken o = uncreated-Locked q _ refl
      go true true o = uncreated-Locked q _ refl
      go true false (some user) = uncreated-Locked q _ refl
      go true false none = insert_user-Locked q (q.meanwhile s)

  -- Where nobody takes or frees the username meanwhile, nor frees the email between a failed insert and
  -- the checks after it, two databases in which the username is equally taken give a signup the same
  -- answer and the same number of mails, whatever emails they hold; and no password logs in with an
  -- email whose account the signup has just created.
  pub register-uniform :
      (q : Signup (Table.State t)) (s r : Table.State t)
      → is_taken c t q.username s ≡ is_taken c t q.username r
      → IsUndisturbed q s
      → IsUndisturbed q r
      → (seen (register c t q s) ≡ seen (register c t q r)) × Locked q (register c t q s)
  register-uniform q s r same calm_s calm_r = (
    seen-register q s calm_s
        ∙ ap (answer q (Crypto.policy c q.password (candidate c t q))) same
        ∙ sym (seen-register q r calm_r),
    register-Locked q s,
  )
