-- ===== src/Harness/Run/Judged.antt =====
-- What the rows of a whole run say of the cases.
use shikomi.Prelude.{
  and_then, ℕ, ◌≡◌, refl, ◌∙◌, inl, inr, Bool, true, false, not, ◌&&◌, Option, none, some, List, [],
  ◌∷◌, map, if◌then◌else◌,
}
use shikomi.Json.{Number}
use shikomi.Harness.Compare.{Comparison}
use shikomi.Harness.Run.{
  Row, Line, TestCase, Processes, Validator, is_passed, row_fields, after_send, after_spawn,
  judge_case, judge_cases, record_row, prepend_row, run, spawn_child, with_probes, fill_time,
  fill_times, after_first, read_reply, finalize, needs_respawn,
}
use shikomi.Harness.Run.Report.{Covers, ids, OfCase, finalize-OfCase, accounts_for-Covers}
use shikomi.Verdict.{accounts_for}

module _ (number : Number) (micro : Number.N number) (finite : Number.N number → Bool) where
  open number use {N}

  Covers-fill_time :
      (limit : N) (p : Processes N) (c : Comparison N) (v : Option (Validator number micro finite))
      (sends stop : Bool) (rs : List (Row N)) (tcs : List (TestCase N))
      → Covers number micro finite rs tcs
      → Covers number micro finite
          (map (fill_time number micro finite p c v sends stop limit) rs)
          tcs
  Covers-fill_time limit p c v sends stop [] tcs h = h
  Covers-fill_time limit p c v sends stop (r ∷ rs) [] h = absurd h
  Covers-fill_time limit p c v sends stop (r ∷ rs) (tc ∷ tcs) (e, inl h) =
      (e, inl (Covers-fill_time limit p c v sends stop rs tcs h))
  Covers-fill_time limit p c v sends stop (r ∷ []) (tc ∷ tcs) (e, inr h) = (e, inr h)
  Covers-fill_time limit p c v sends stop (r ∷ r' ∷ rs) (tc ∷ tcs) (e, inr (n, g)) = absurd n

  id-with_probes : (b : Bool) (tc : TestCase N) → (with_probes number micro finite b tc).id ≡ tc.id
  id-with_probes true tc = refl
  id-with_probes false tc = refl

  module _ (p : Processes N) (c : Comparison N) (v : Option (Validator number micro finite))
      (sends stop : Bool) where
    open p use {State}

    abbrev Names : ℕ → Option (Row N × (Bool × State)) → Type 0
    Names id none = Unit
    Names id (some (r, rest)) = r.test_case_id ≡ id

    judge_case-Names :
        (tc : TestCase N) (alive : Bool) (s : State)
        → Names tc.id (
            judge_case number micro finite p c v sends stop
              (with_probes number micro finite sends tc)
              alive
              s)
    unfolding judge_case after_send
    judge_case-Names tc alive s =
        spawned
          (if alive then some (true, s) else spawn_child number micro finite p c v sends stop s)
      where
        sent : TestCase N
        sent = with_probes number micro finite sends tc

        same : sent.id ≡ tc.id
        same = id-with_probes sends tc

        answered :
            (o : Option (Line N × State))
            → Names tc.id (after_send number micro finite p c v sends stop sent o)
        answered none = tt
        answered (some (line, t)) =
            rowed (finalize number micro finite sent (read_reply line) c v)
              (finalize-OfCase number micro finite sent (read_reply line) c v)
          where
            rowed :
                (o : Option (Row N))
                → OfCase number micro finite sent.id o
                → Names tc.id (
                    and_then o (λ r.
                      let dead = needs_respawn number micro finite (read_reply line) in
                      some (r, (not dead, if dead then p.kill t else t))))
            rowed none h = tt
            rowed (some r) h = h ∙ same

        spawned :
            (x : Option (Bool × State))
            → Names tc.id (after_spawn number micro finite p c v sends stop sent x)
        spawned none = tt
        spawned (some (true, t)) = answered (p.send sent t)
        spawned (some (false, t)) = same

    -- The rows of `run`, if no exception left it.
    abbrev Covering : List (TestCase N) → Option (List (Row N)) → Type 0
    Covering tcs none = Unit
    Covering tcs (some rs) = Covers number micro finite rs tcs

    record_row-Covering :
        (tc : TestCase N) (tcs : List (TestCase N)) (o : Option (Row N × (Bool × State)))
        (rest : Bool → State → Option (List (Row N)))
        → Names tc.id o
        → ((alive : Bool) (s : State) → Covering tcs (rest alive s))
        → Covering (tc ∷ tcs) (record_row number micro finite p c v sends stop rest o)
    record_row-Covering tc tcs none rest n h = tt
    record_row-Covering tc tcs (some (r, (alive, s))) rest n h =
        ended (is_passed r.status) refl stop (rest alive s) (h alive s)
      where
        more :
            (o : Option (List (Row N)))
            → Covering tcs o
            → Covering (tc ∷ tcs) (prepend_row number micro finite p c v sends stop r o)
        more none h = tt
        more (some rs) h = (n, inl h)

        ended :
            (b : Bool)
            → is_passed r.status ≡ b
            → (stop' : Bool) (o : Option (List (Row N))) → Covering tcs o
            → Covering (tc ∷ tcs) (
                if not b && stop'
                then some (r ∷ [])
                else prepend_row number micro finite p c v sends stop r o)
        ended true e stop' o h = more o h
        ended false e true o h = (n, inr (tt, e))
        ended false e false o h = more o h

    judge_cases-Covering :
        (tcs : List (TestCase N)) (alive : Bool) (s : State)
        → Covering tcs (judge_cases number micro finite p c v sends stop tcs alive s)
    unfolding judge_cases
    judge_cases-Covering [] alive s = tt
    judge_cases-Covering (tc ∷ tcs) alive s =
        record_row-Covering tc tcs _ (judge_cases number micro finite p c v sends stop tcs)
          (judge_case-Names tc alive s) (judge_cases-Covering tcs)

    fill_times-Covering :
        (limit : N) (tcs : List (TestCase N)) (o : Option (List (Row N)))
        → Covering tcs o
        → Covering tcs (fill_times number micro finite p c v sends stop limit o)
    fill_times-Covering limit tcs none h = tt
    fill_times-Covering limit tcs (some rs) h = Covers-fill_time limit p c v sends stop rs tcs h

    run-Covering :
        (limit : N) (loads : Bool) (tc : TestCase N) (tcs : List (TestCase N)) (s : State)
        → Covering (tc ∷ tcs) (run number micro finite p c v sends stop limit loads (tc ∷ tcs) s)
    unfolding run
    run-Covering limit false tc tcs s = (refl, inr (tt, refl))
    run-Covering limit true tc tcs s = first (spawn_child number micro finite p c v sends stop s)
      where
        first :
            (x : Option (Bool × State))
            → Covering
                (tc ∷ tcs)
                (after_first number micro finite p c v sends stop limit (tc ∷ tcs) x)
        first none = tt
        first (some (true, t)) =
            fill_times-Covering limit (tc ∷ tcs) _ (judge_cases-Covering (tc ∷ tcs) true t)
        first (some (false, t)) = (refl, inr (tt, refl))

    -- Whatever the child processes answer, the rows of a run on at least one case that no exception
    -- leaves are a report that the worker's check accepts for the cases that were sent.
    pub run-accounts_for :
        (limit : N) (loads : Bool) (tc : TestCase N) (tcs : List (TestCase N)) (s : State)
        (rs : List (Row N))
        → run number micro finite p c v sends stop limit loads (tc ∷ tcs) s ≡ some rs
        → accounts_for number
            (map (row_fields number micro finite) rs)
            (ids number micro finite (tc ∷ tcs))
          ≡ true
    run-accounts_for limit loads tc tcs s rs e =
        let h = run-Covering limit loads tc tcs s in
        accounts_for-Covers number micro finite rs tc tcs (rw e at h)
