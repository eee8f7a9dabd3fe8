-- ===== src/Verdict/Report.antt =====
-- Reports that account for the cases that were sent.
use Prim.Native.String.{String}
use shikomi.Prelude.{
  ℕ, ◌≡◌, ◌≤◌, ◌⊎◌, inl, inr, refl, true, false, Option, none, some, List, [], ◌∷◌, length, arith,
  All, Bool-cases,
}
use shikomi.Json.{Number, Json, Fields}
use shikomi.Verdict.{
  has_passed, ids_match, last_passed, accounts_for, parse_harness_output, parsed_rows,
  when_accounted,
}

abbrev pub AllPassed : {N : Type 0} → List (Fields N) → Type 0
AllPassed = All (λ r. has_passed r ≡ true)

last_passed-AllPassed :
    {N : Type 0} (r : Fields N) (rs : List (Fields N))
    → AllPassed (r ∷ rs)
    → last_passed (r ∷ rs) ≡ true
last_passed-AllPassed r [] h = h.0
last_passed-AllPassed r (s ∷ rs) h = last_passed-AllPassed s rs h.1

module _ (number : Number) where
  open number use {N}

  -- A report that accounts for its cases has no more rows than cases, row by row with their ids, and
  -- it is complete if every row passed.
  pub accounts_for_complete :
      (rs : List (Fields N)) (ids : List ℕ)
      → accounts_for number rs ids ≡ true
      → (length rs ≤ length ids)
        × (ids_match number rs ids ≡ true)
        × (AllPassed rs → length rs ≡ length ids)
  unfolding accounts_for
  accounts_for_complete [] [] h = (omega arith, refl, λ p. refl)
  accounts_for_complete (r ∷ rs) [] h = ground arith
  accounts_for_complete [] (i ∷ ids) h = ground arith
  accounts_for_complete (r ∷ rs) (i ∷ ids) h =
      (ground arith, ground arith, λ p. ground (arith, last_passed-AllPassed r rs p))

  -- The other way round.
  pub accounts_for_lem :
      (r : Fields N) (rs : List (Fields N)) (ids : List ℕ)
      → length (r ∷ rs) ≤ length ids
      → ids_match number (r ∷ rs) ids ≡ true
      → (length (r ∷ rs) ≡ length ids) ⊎ (last_passed (r ∷ rs) ≡ false)
      → accounts_for number (r ∷ rs) ids ≡ true
  unfolding accounts_for
  accounts_for_lem r rs [] le m e = absurd (omega arith)
  accounts_for_lem r rs (i ∷ ids) le m e = ground arith

  when_accounted-some :
      (o : Option (List (Fields N))) (ids : List ℕ) (rs : List (Fields N))
      → when_accounted number ids o ≡ some rs
      → accounts_for number rs ids ≡ true
  unfolding when_accounted
  when_accounted-some none ids rs e = ground arith
  when_accounted-some (some ss) ids rs e = elim (Bool-cases (accounts_for number ss ids)) [
    | inl t ↦ let same : ss ≡ rs = ground arith in rw (← same) t
    | inr f ↦ ground arith
  ]

  module _ (loads : String → Option (Json N)) where
    pub parse-accounts_for :
        (stdout : String) (ids : List ℕ) (rs : List (Fields N))
        → parse_harness_output number loads stdout ids ≡ some rs
        → accounts_for number rs ids ≡ true
    unfolding parse_harness_output
    parse-accounts_for stdout ids rs e =
        when_accounted-some (parsed_rows number loads (loads stdout)) ids rs e
