-- ===== src/Verdict/Decide.antt =====
-- Which verdict `aggregate` gives.
use Prim.Native.String.{String}
use shikomi.Prelude.{
  ℕ, ◌≡◌, ◌≢◌, ◌≤◌, inl, inr, refl, true, false, Option, none, some, List, [], ◌∷◌, length, arith,
  Bool-cases, Option-cases, count_if, ◌∙◌,
}
use shikomi.Json.{Number, Json, null, bool, num, str, arr, obj, Fields, get}
use shikomi.Submission.{accepted, Status}
use shikomi.Verdict.{
  has_passed, case_status, overall, aggregate, Verdict, ContainerResult, judged, sum_runtimes,
  parse_harness_output, ids_match, rows_or_none, by_rows,
}
use shikomi.Verdict.Report.{AllPassed, accounts_for_complete, parse-accounts_for}

case_status-accepted : {N : Type 0} (o : Option (Json N)) → case_status o ≢ some accepted
unfolding case_status
case_status-accepted none e = ground arith
case_status-accepted (some null) e = ground arith
case_status-accepted (some (bool b)) e = ground arith
case_status-accepted (some (num a)) e = ground arith
case_status-accepted (some (str s)) e = ground arith
case_status-accepted (some (arr xs)) e = ground arith
case_status-accepted (some (obj fs)) e = ground arith

overall-accepted : {N : Type 0} (rs : List (Fields N)) → overall rs ≡ some accepted → AllPassed rs
unfolding overall
overall-accepted [] e = tt
overall-accepted (r ∷ rs) e = elim (Bool-cases (has_passed r)) [
  | inl t ↦ (t, overall-accepted rs (rw t at e))
  | inr f ↦ absurd (case_status-accepted (get "status" r) (rw f at e))
]

overall-AllPassed : {N : Type 0} (rs : List (Fields N)) → AllPassed rs → overall rs ≡ some accepted
unfolding overall
overall-AllPassed [] h = refl
overall-AllPassed (r ∷ rs) h = rw (h.0) (overall-AllPassed rs h.1)

count-AllPassed :
    {N : Type 0} (rs : List (Fields N)) → AllPassed rs → count_if has_passed rs ≡ length rs
count-AllPassed [] h = refl
count-AllPassed (r ∷ rs) h = ground (arith, count-AllPassed rs h.1)

count-le-length : {N : Type 0} (rs : List (Fields N)) → count_if has_passed rs ≤ length rs
count-le-length [] = omega arith
count-le-length (r ∷ rs) = ground (arith, count-le-length rs)

module _ (number : Number) where
  open number use {N}

  -- The container's signals are clear.
  abbrev pub IsClear : ContainerResult → Type 0
  IsClear c = (c.timed_out ≡ false) × (c.oom_killed ≡ false) × (c.stdout_truncated ≡ false)

  judged-accepted :
      (rs : List (Fields N)) (total : ℕ) (t : Option N) (o : Option Status) (v : Verdict N)
      → judged number rs total t o ≡ some v
      → v.status ≡ accepted
      → (o ≡ some accepted) × (v.passed ≡ count_if has_passed rs) × (v.total ≡ total)
  judged-accepted rs total (some t) (some s) v e a = ground arith
  judged-accepted rs total none o v e a = ground arith
  judged-accepted rs total (some t) none v e a = ground arith

  aggregate-IsClear :
      (c : ContainerResult) (o : Option (List (Fields N))) (total : ℕ) (v : Verdict N)
      → aggregate number c o total ≡ some v
      → v.status ≡ accepted
      → IsClear c × (by_rows number o total ≡ some v)
  unfolding aggregate
  aggregate-IsClear c o total v e a = ground arith

  by_rows-accepted :
      (o : Option (List (Fields N))) (total : ℕ) (v : Verdict N)
      → by_rows number o total ≡ some v
      → v.status ≡ accepted
      → (rs : List (Fields N)) × (o ≡ some rs)
        × AllPassed rs
        × (v.passed ≡ length rs)
        × (v.total ≡ total)
  unfolding by_rows
  by_rows-accepted none total v e a = ground arith
  by_rows-accepted (some rs) total v e a =
      let j =
        judged-accepted rs total (sum_runtimes number (some (number.of_ℕ 0)) rs) (overall rs) v e
          a in
      let p = overall-accepted rs j.0 in (rs, refl, p, j.1 ∙ count-AllPassed rs p, j.2)

  -- An accepted verdict means that the run was clean and that every case that was sent has its own
  -- row, in order and with its id, which passed; it reads `total` of `total`.
  pub aggregate-accepted :
      (loads : String → Option (Json N)) (stdout : String) (ids : List ℕ) (c : ContainerResult)
      (v : Verdict N)
      → aggregate number c (parse_harness_output number loads stdout ids) (length ids) ≡ some v
      → v.status ≡ accepted
      → IsClear c
        × (rs : List (Fields N)) × (parse_harness_output number loads stdout ids ≡ some rs)
        × (length rs ≡ length ids)
        × (ids_match number rs ids ≡ true)
        × AllPassed rs
        × (v.passed ≡ v.total)
  aggregate-accepted loads stdout ids c v e a =
      let o = parse_harness_output number loads stdout ids in
      let clear = aggregate-IsClear c o (length ids) v e a in
      let (rs, found, all, passed, total) = by_rows-accepted o (length ids) v clear.1 a in
      let report =
        accounts_for_complete number rs ids (parse-accounts_for number loads stdout ids rs found) in
      (clear.0, rs, found, report.2 all, report.1, all, omega (arith, report.2 all))

  -- A clean run whose rows all passed, with runtimes that can be added, is accepted.
  pub aggregate-AllPassed :
      (c : ContainerResult) (rs : List (Fields N)) (total : ℕ) (t : N)
      → IsClear c
      → AllPassed rs
      → sum_runtimes number (some (number.of_ℕ 0)) rs ≡ some t
      → (v : Verdict N) × (aggregate number c (some rs) total ≡ some v)
        × (v.status ≡ accepted)
        × (v.passed ≡ length rs)
  unfolding aggregate
  aggregate-AllPassed c rs total t clear all st = (
    record {
      status = accepted;
      runtime_ms = elim rs [ [] ↦ none | r ∷ rest ↦ some (number.round3 t) ];
      results = rs;
      passed = count_if has_passed rs;
      total = total;
    },
    simp (clear.0, clear.1, clear.2, st, overall-AllPassed rs all),
    refl,
    count-AllPassed rs all,
  )

  judged-counts :
      (rs : List (Fields N)) (total : ℕ) (t : Option N) (o : Option Status) (v : Verdict N)
      → judged number rs total t o ≡ some v
      → (v.passed ≡ count_if has_passed rs) × (v.total ≡ total)
  judged-counts rs total (some t) (some s) v e = ground arith
  judged-counts rs total none o v e = ground arith
  judged-counts rs total (some t) none v e = ground arith

  aggregate-counts :
      (c : ContainerResult) (o : Option (List (Fields N))) (total : ℕ) (v : Verdict N)
      → aggregate number c o total ≡ some v
      → (v.passed ≤ count_if has_passed (rows_or_none number o)) × (v.total ≡ total)
  unfolding aggregate
  aggregate-counts c none total v e = ground arith
  aggregate-counts c (some rs) total v e =
      ground (
        arith,
        judged-counts rs total (sum_runtimes number (some (number.of_ℕ 0)) rs) (overall rs) v,
      )

  -- Whatever the container and the report say, no more cases are counted as passed than were sent.
  pub aggregate-passed_le_total :
      (loads : String → Option (Json N)) (stdout : String) (ids : List ℕ) (c : ContainerResult)
      (v : Verdict N)
      → aggregate number c (parse_harness_output number loads stdout ids) (length ids) ≡ some v
      → (v.passed ≤ v.total) × (v.total ≡ length ids)
  aggregate-passed_le_total loads stdout ids c v e =
      let counts =
        aggregate-counts c (parse_harness_output number loads stdout ids) (length ids) v e in
      elim (Option-cases (parse_harness_output number loads stdout ids)) [
        | inl n ↦ let few : v.passed ≤ 0 = rw n at counts.0 in (omega arith, counts.1)
        | inr (rs, s) ↦
            let few : v.passed ≤ count_if has_passed rs = rw s at counts.0 in
            (
              omega (
                arith,
                count-le-length rs,
                (accounts_for_complete number rs ids
                    (parse-accounts_for number loads stdout ids rs s)).0,
              ),
              counts.1,
            )
      ]
