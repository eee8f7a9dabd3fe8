-- ===== src/Harness/Run/Report.antt =====
-- The report of `run`, as `_accounts_for` of backend/worker/aggregate.py reads it.
use shikomi.Prelude.{
  and_then, ap, sym, suc, length-map, ℕ, ◌≡◌, ◌≤◌, refl, ◌∙◌, ◌⊎◌, inl, inr, Bool, true, false, not,
  ◌&&◌, ◌||◌, ◌==◌, Option, none, some, List, [], ◌∷◌, map, length, arith, if◌then◌else◌,
}
use shikomi.Json.{Number, Json, Fields, get, arr, nil}
use shikomi.Harness.Compare.{Comparison, compare}
use shikomi.Harness.Nesting.{nests_too_deeply}
use shikomi.Harness.Run.{
  Row, RowStatus, TestCase, Answer, Validator, is_passed, status_text, passed, row_fields,
  answer_row, answered, outran, faulty, runtime_error, or_null, accounts_probes, has_status,
  max_nesting, number_or_zero, wrong_answer, time_limit_exceeded, judge_error, finalize,
  finalize_at, judge_value,
}
use shikomi.Verdict.{ids_match, last_passed, accounts_for, has_passed}
use shikomi.Prelude.Text.{str_eq}
use shikomi.Verdict.Report.{accounts_for_lem}

module _ (number : Number) (micro : Number.N number) (finite : Number.N number → Bool) where
  open number use {N}

  abbrev pub IsLast : List (Row N) → Type 0
  IsLast [] = Unit
  IsLast (r ∷ rs) = ⊥

  -- Rows for a prefix of the cases, all of them unless the last row did not pass.
  abbrev pub Covers : List (Row N) → List (TestCase N) → Type 0
  Covers [] [] = Unit
  Covers [] (tc ∷ tcs) = ⊥
  Covers (r ∷ rs) [] = ⊥
  Covers (r ∷ rs) (tc ∷ tcs) =
      (r.test_case_id ≡ tc.id) × (Covers rs tcs ⊎ (IsLast rs × (is_passed r.status ≡ false)))

  -- The row, if there is one, is the case's.
  abbrev pub OfCase : ℕ → Option (Row N) → Type 0
  OfCase n none = Unit
  OfCase n (some r) = r.test_case_id ≡ n

  pick_row :
      (b : Bool) (o o' : Option (Row N)) (n : ℕ)
      → OfCase n o
      → OfCase n o'
      → OfCase n (if b then o else o')
  pick_row true o o' n p q = p
  pick_row false o o' n p q = q

  judge_value-OfCase :
      (validate : Option (Validator number micro finite)) (comparison : Comparison N)
      (tc : TestCase N) (reply : Fields N) (time : N) (actual : Json N)
      → OfCase tc.id (judge_value number micro finite validate comparison tc reply time actual)
  unfolding judge_value
  judge_value-OfCase none comparison tc reply time actual =
      compared (compare number micro actual tc.expected comparison)
    where
      compared :
          (o : Option Bool)
          → OfCase tc.id
              (and_then o (λ b. some (answer_row number micro finite tc time (answered b))))
      compared none = tt
      compared (some b) = refl
  judge_value-OfCase (some validate) comparison tc reply time actual =
      pick_row (tc.probes == 0) _ _ tc.id (answers (validate actual tc (arr nil) time)) (
        pick_row (accounts_probes tc.probes (get "probe_results" reply)) _ _ tc.id
          (answers (validate actual tc (or_null (get "probe_results" reply)) time)) refl)
    where
      answers : (a : Answer) → (answer_row number micro finite tc time a).test_case_id ≡ tc.id
      answers (answered b) = refl
      answers outran = refl
      answers faulty = refl

  finalize_at-OfCase :
      (tc : TestCase N) (reply : Fields N) (comparison : Comparison N)
      (validate : Option (Validator number micro finite)) (time : N)
      → OfCase tc.id (finalize_at number micro finite tc reply comparison validate time)
  unfolding finalize_at
  finalize_at-OfCase tc reply comparison validate time =
      pick_row (has_status "__crash__" reply) _ _ tc.id refl (
        pick_row (has_status "__hang__" reply || has_status "time_limit_exceeded" reply) _ _ tc.id
          refl
          (pick_row (has_status "runtime_error" reply) _ _ tc.id refl (
            pick_row (has_status "probe_error" reply && not (tc.probes == 0)) _ _ tc.id refl (
              pick_row
                (nests_too_deeply (or_null (get "actual" reply)) max_nesting
                  || (not (tc.probes == 0)
                      && nests_too_deeply (or_null (get "probe_results" reply)) max_nesting))
                _ _ tc.id refl
                (judge_value-OfCase validate comparison tc reply time
                  (or_null (get "actual" reply)))))))

  pub finalize-OfCase :
      (tc : TestCase N) (reply : Fields N) (comparison : Comparison N)
      (validate : Option (Validator number micro finite))
      → OfCase tc.id (finalize number micro finite tc reply comparison validate)
  unfolding finalize
  finalize-OfCase tc reply comparison validate =
      timed (number_or_zero number micro finite (get "runtime_ms" reply))
    where
      timed :
          (o : Option N)
          → OfCase tc.id (and_then o (finalize_at number micro finite tc reply comparison validate))
      timed none = tt
      timed (some time) = finalize_at-OfCase tc reply comparison validate time

  passed-row_fields :
      (r : Row N) → has_passed (row_fields number micro finite r) ≡ is_passed r.status
  passed-row_fields r = go r.status
    where
      go : (t : RowStatus) → str_eq (status_text t) "passed" ≡ is_passed t
      go passed = refl
      go wrong_answer = refl
      go runtime_error = refl
      go time_limit_exceeded = refl
      go judge_error = refl

  length-Covers :
      (rs : List (Row N)) (tcs : List (TestCase N)) → Covers rs tcs → length rs ≤ length tcs
  length-Covers [] [] c = omega arith
  length-Covers [] (tc ∷ tcs) c = absurd c
  length-Covers (r ∷ rs) [] c = absurd c
  length-Covers (r ∷ rs) (tc ∷ tcs) (e, inl c) = let le = length-Covers rs tcs c in omega arith
  length-Covers (r ∷ []) (tc ∷ tcs) (e, inr (n, g)) = omega arith
  length-Covers (r ∷ r' ∷ rs) (tc ∷ tcs) (e, inr (n, g)) = absurd n

  abbrev pub ids : List (TestCase N) → List ℕ
  ids = map (λ tc. tc.id)

  ids_match-Covers :
      (rs : List (Row N)) (tcs : List (TestCase N))
      → Covers rs tcs
      → ids_match number (map (row_fields number micro finite) rs) (ids tcs) ≡ true
  unfolding ids_match
  ids_match-Covers [] [] c = refl
  ids_match-Covers [] (tc ∷ tcs) c = absurd c
  ids_match-Covers (r ∷ rs) [] c = absurd c
  ids_match-Covers (r ∷ rs) (tc ∷ tcs) (e, inl c) =
      rw (e, number.eq_refl (number.of_ℕ tc.id)) (ids_match-Covers rs tcs c)
  ids_match-Covers (r ∷ []) (tc ∷ tcs) (e, inr (n, g)) =
      rw (e, number.eq_refl (number.of_ℕ tc.id)) refl
  ids_match-Covers (r ∷ r' ∷ rs) (tc ∷ tcs) (e, inr (n, g)) = absurd n

  ends-Covers :
      (r : Row N) (rs : List (Row N)) (tcs : List (TestCase N))
      → Covers (r ∷ rs) tcs
      → (length (r ∷ rs) ≡ length tcs)
        ⊎ (last_passed (map (row_fields number micro finite) (r ∷ rs)) ≡ false)
  ends-Covers r rs [] c = absurd c
  ends-Covers r [] (tc ∷ []) c = inl refl
  ends-Covers r [] (tc ∷ tc' ∷ tcs) (e, inl c) = absurd c
  ends-Covers r [] (tc ∷ tc' ∷ tcs) (e, inr (n, g)) = inr (passed-row_fields r ∙ g)
  ends-Covers r (r' ∷ rs) (tc ∷ tcs) (e, inl c) = elim (ends-Covers r' rs tcs c) [
    | inl l ↦ inl (ap suc l)
    | inr f ↦ inr f
  ]
  ends-Covers r (r' ∷ rs) (tc ∷ tcs) (e, inr (n, g)) = absurd n

  -- A report of rows that cover the cases is one that the worker accepts.
  pub accounts_for-Covers :
      (rs : List (Row N)) (tc : TestCase N) (tcs : List (TestCase N))
      → Covers rs (tc ∷ tcs)
      → accounts_for number (map (row_fields number micro finite) rs) (ids (tc ∷ tcs)) ≡ true
  accounts_for-Covers [] tc tcs c = absurd c
  accounts_for-Covers (r ∷ rs) tc tcs c =
      let rows : List (Fields N) = map (row_fields number micro finite) (r ∷ rs) in
      let few = length-Covers (r ∷ rs) (tc ∷ tcs) c in
      let same = length-map (row_fields number micro finite) (r ∷ rs) in
      let sent = length-map (λ v. v.id) (tc ∷ tcs) in
      accounts_for_lem number (row_fields number micro finite r)
        (map (row_fields number micro finite) rs) (ids (tc ∷ tcs)) (omega (arith, few, same, sent))
        (ids_match-Covers (r ∷ rs) (tc ∷ tcs) c)
        (elim (ends-Covers r rs (tc ∷ tcs) c) [
          | inl e ↦ inl (same ∙ (e ∙ sym sent))
          | inr g ↦ inr g
        ])
