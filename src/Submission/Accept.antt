-- ===== src/Submission/Accept.antt =====
-- What an accepted attempt has done.
use Prim.Native.String.{String, len}
use shikomi.Prelude.{
  ℕ, ◌+◌, ◌≡◌, refl, Bool, true, false, Option, none, some, List, [], ◌∷◌, arith, ltb, inl, inr,
  Bool-cases, ==_refl,
}
use shikomi.Prelude.Text.{eq_refl}
use shikomi.Services.{Table, Jobs}
use shikomi.Services.Redis.{Redis, inflight}
use shikomi.Queue.{acquire_inflight, inflight_ttl_seconds}
use shikomi.Queue.Lock.{acquire_inflight-true}
use shikomi.Submission.{submit, Backend, World}
use shikomi.Submission.Create.{
  ApiError, Result, ok, attempt, Settings, Problem, Request, Faults, offers, choose_language,
  new_row, write_and_enqueue, lock_and_write, when_language, when_found, when_counted,
  count_request, create_submission,
}

offers-choose_language :
    (offered : List String) (asked : Option String) (language : String)
    → choose_language offered asked ≡ (none, language)
    → offers offered language ≡ true
unfolding choose_language
offers-choose_language offered (some asked) language e = elim (Bool-cases (offers offered asked)) [
  | inl t ↦ ground arith
  | inr g ↦ ground arith
]
offers-choose_language [] none language e = ground arith
offers-choose_language (l ∷ []) none language e = ground (arith, eq_refl l)
offers-choose_language (l ∷ m ∷ ls) none language e = ground arith

module _ {D : Type 0} (b : Backend D) (settings : Settings) (problems : ℕ → Option Problem)
    (now sub_id : ℕ) (f : Faults b) (r : Request) where
  -- The lock of this user and problem is held for this submission until its time to live ends.
  abbrev pub IsLocked : World b → Type 0
  IsLocked w =
      Redis.entry b.redis w.cache now (inflight r.user_id r.problem_id)
      ≡ some (record { value = sub_id; expires = some (now + inflight_ttl_seconds) })

  -- The row is there and pending, and its job is known to the queue.
  pub record IsQueued (language : String) (w : World b) : Type 0 where
    pub row :
        Table.find b.table w.rows sub_id
        ≡ some (new_row b settings problems now sub_id f r language)
    pub job : Jobs.known b.jobs w.queue sub_id ≡ true

  write-ok :
      (language : String) (w : World b) (i : ℕ)
      → (write_and_enqueue b settings problems now sub_id f r language w).0 ≡ ok i
      → (i ≡ sub_id)
        × ((write_and_enqueue b settings problems now sub_id f r language w).1.cache ≡ w.cache)
        × IsQueued language (write_and_enqueue b settings problems now sub_id f r language w).1
  unfolding write_and_enqueue
  write-ok language w i e = ground (
    arith,
    Table.find-insert b.table sub_id sub_id (new_row b settings problems now sub_id f r language)
        w.rows,
    Jobs.known-enqueue b.jobs sub_id sub_id r.mode w.queue,
    ==_refl sub_id,
  )

  lock-ok :
      (language : String) (w : World b) (i : ℕ)
      → (lock_and_write b settings problems now sub_id f r language w).0 ≡ ok i
      → (i ≡ sub_id)
        × IsQueued language (lock_and_write b settings problems now sub_id f r language w).1
        × (r.mode ≡ submit
            → IsLocked (lock_and_write b settings problems now sub_id f r language w).1)
  unfolding lock_and_write
  lock-ok language w i e =
      let w' : World b = record w {
        cache = (acquire_inflight b.redis now r.user_id r.problem_id sub_id w.cache).1;
      } in
      ground (
        arith,
        acquire_inflight-true b.redis r.user_id r.problem_id now sub_id w.cache,
        write-ok language w i,
        write-ok language w' i,
      )

  -- What an accepted attempt has done: the problem is published and offered in the language; the row
  -- is pending and its job queued; a submit holds the lock.
  pub record IsAccepted (i : ℕ) (w : World b) : Type 0 where
    pub problem : Problem
    pub language : String
    pub found : problems r.problem_id ≡ some problem
    pub published : problem.is_published ≡ true
    pub offered : offers problem.languages language ≡ true
    pub id : i ≡ sub_id
    pub queued : IsQueued language w
    pub locked : r.mode ≡ submit → IsLocked w

  abbrev Done : Result × World b → Type 0
  Done x = (i : ℕ) → x.0 ≡ ok i → IsAccepted i x.1

  language-ok :
      (p : Problem) (c : Option ApiError × String) (w : World b)
      → problems r.problem_id ≡ some p
      → p.is_published ≡ true
      → choose_language p.languages r.language ≡ c
      → Done (when_language b settings problems now sub_id f r c w)
  language-ok p (some e, language) w pe pub_p ce i x = ground arith
  language-ok p (none, language) w pe pub_p ce i x =
      let l = lock-ok language w i x in
      record {
        problem = p;
        language = language;
        found = pe;
        published = pub_p;
        offered = offers-choose_language p.languages r.language language ce;
        id = l.0;
        queued = l.1;
        locked = l.2;
      }

  found-ok :
      (o : Option Problem) (w : World b)
      → problems r.problem_id ≡ o
      → Done (when_found b settings problems now sub_id f r o w)
  found-ok none w e i x = ground arith
  found-ok (some p) w e i x = elim (Bool-cases p.is_published) [
    | inl t ↦
        simp t (language-ok p (choose_language p.languages r.language) w e t refl i (simp t at x))
    | inr g ↦ ground arith
  ]

  counted-ok :
      (c : Option Bool × World b) → Done (when_counted b settings problems now sub_id f r c)
  counted-ok (none, w) i x = ground arith
  counted-ok (some false, w) i x = ground arith
  counted-ok (some true, w) i x = found-ok (problems r.problem_id) w refl i x

  -- An accepted attempt is for a published problem, in a language that it offers; its row is stored
  -- and pending, its job is queued, and for a submit the lock is held by it for 120 seconds.
  pub create_submission-ok :
      (w : World b) (i : ℕ)
      → (create_submission b settings problems now sub_id f r w).0 ≡ ok i
      → IsAccepted i (create_submission b settings problems now sub_id f r w).1
  unfolding create_submission
  create_submission-ok w i x = elim (Bool-cases (ltb settings.max_code_bytes (len r.code))) [
    | inl t ↦ ground arith
    | inr g ↦ simp g (
        counted-ok (attempt f.rate (count_request b settings problems now sub_id f r) w) i
          (simp g at x))
  ]
