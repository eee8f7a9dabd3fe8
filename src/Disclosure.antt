-- ===== src/Disclosure.antt =====
-- `build_verdict_results` of backend/worker/judging.py: what is stored of each case's row. `D` is what a
-- row holds beside its id, status and time, `J` is JSON, and `capped` is `_capped`.
use Prim.Native.String.{String}
use shikomi.Prelude.{
  ℕ, ◌≡◌, refl, Bool, true, false, ◌&&◌, ◌||◌, ◌==◌, Option, none, some, List, [], ◌∷◌, map, any_of,
  ◌⊎◌, inl, inr, Bool-cases, if◌then◌else◌, arith, ==_iff, ==_refl, sym, ◌∙◌,
}
use shikomi.Prelude.Text.{str_eq}
use shikomi.Submission.{Double}

pub record CaseRow (D : Type 0) : Type 0 where
  pub test_case_id : ℕ
  pub status : String
  pub runtime_ms : Option Double
  pub detail : D

pub record TestCase (J : Type 0) : Type 0 where
  pub ordinal : ℕ
  pub is_sample : Bool
  pub input : J
  pub expected : J

-- A stored row: reduced, or whole with the input and the expected value where they are embedded.
pub data Stored (D C : Type 0) : Type 0 where
  reduced : ℕ → String → Option Double → Stored D C
  whole : CaseRow D → Option (C × C) → Stored D C

module _ (D : Type 0) {J C : Type 0} (capped : J → C) where
  abbrev pub in_samples : List (TestCase J) → ℕ → Bool
  in_samples cases n = any_of (λ c. c.is_sample && c.ordinal == n) cases

  -- `case_by_ord.get(n)`: of two cases with one ordinal the dictionary keeps the last.
  abbrev pub case_by_ord : List (TestCase J) → ℕ → Option (TestCase J)
  case_by_ord [] n = none
  case_by_ord (c ∷ cases) n = elim (case_by_ord cases n) [
    | some d ↦ some d
    | none ↦ if c.ordinal == n then some c else none
  ]

  abbrev pub first_fail : List (CaseRow D) → Option ℕ
  first_fail [] = none
  first_fail (r ∷ rs) = if str_eq r.status "passed" then first_fail rs else some r.test_case_id

  abbrev pub is_first_fail : Option ℕ → ℕ → Bool
  is_first_fail none n = false
  is_first_fail (some f) n = f == n

  abbrev pub embedded : Bool → Option (TestCase J) → Option (C × C)
  embedded sample none = none
  embedded sample (some c) = if sample then none else some (capped c.input, capped c.expected)

  unfoldable pub stored_row : List (TestCase J) → Option ℕ → CaseRow D → Stored D C
  stored_row cases fail r =
      if in_samples cases r.test_case_id || is_first_fail fail r.test_case_id
      then whole r (embedded (in_samples cases r.test_case_id) (case_by_ord cases r.test_case_id))
      else reduced r.test_case_id r.status r.runtime_ms

  unfoldable pub build_verdict_results : List (CaseRow D) → List (TestCase J) → List (Stored D C)
  unfolding stored_row
  build_verdict_results results cases = map (stored_row cases (first_fail results)) results

  -- A sample case has this ordinal.
  abbrev pub Sample : List (TestCase J) → ℕ → Type 0
  Sample [] n = ⊥
  Sample (c ∷ cases) n = ((c.is_sample ≡ true) × (c.ordinal ≡ n)) ⊎ Sample cases n

  -- The first row that did not pass is of this case.
  abbrev pub FirstFail : List (CaseRow D) → ℕ → Type 0
  FirstFail [] n = ⊥
  FirstFail (r ∷ rs) n =
      ((str_eq r.status "passed" ≡ true) × FirstFail rs n)
      ⊎ ((str_eq r.status "passed" ≡ false) × (r.test_case_id ≡ n))

  in_samples-Sample :
      (cases : List (TestCase J)) (n : ℕ) → in_samples cases n ≡ true → Sample cases n
  in_samples-Sample [] n h = absurd (ground (arith, h))
  in_samples-Sample (c ∷ cases) n h = elim (Bool-cases (c.is_sample && c.ordinal == n)) [
    | inl e ↦ inl (ground (arith, e), (==_iff c.ordinal n).0 (ground (arith, e)))
    | inr g ↦ inr (in_samples-Sample cases n (simp g at h))
  ]

  Sample-in_samples :
      (cases : List (TestCase J)) (n : ℕ) → Sample cases n → in_samples cases n ≡ true
  Sample-in_samples [] n h = absurd h
  Sample-in_samples (c ∷ cases) n (inl (sample, same)) = rw (sample, same, ==_refl n) refl
  Sample-in_samples (c ∷ cases) n (inr h) = ground (arith, Sample-in_samples cases n h)

  first_fail-FirstFail :
      (rs : List (CaseRow D)) (n : ℕ) → is_first_fail (first_fail rs) n ≡ true → FirstFail rs n
  first_fail-FirstFail [] n h = absurd (ground (arith, h))
  first_fail-FirstFail (r ∷ rs) n h = elim (Bool-cases (str_eq r.status "passed")) [
    | inl e ↦ inl (e, first_fail-FirstFail rs n (simp e at h))
    | inr g ↦ inr (g, (==_iff r.test_case_id n).0 (simp g at h))
  ]

  FirstFail-first_fail :
      (rs : List (CaseRow D)) (n : ℕ) → FirstFail rs n → is_first_fail (first_fail rs) n ≡ true
  FirstFail-first_fail [] n h = absurd h
  FirstFail-first_fail (r ∷ rs) n (inl (e, h)) = simp e (FirstFail-first_fail rs n h)
  FirstFail-first_fail (r ∷ rs) n (inr (g, same)) = simp g (rw (same, ==_refl n) refl)

  -- How the row of a case is stored: whole if the case is a sample or the first that failed, else
  -- reduced to its id, status and time.
  unfoldable pub Discloses : List (CaseRow D) → List (TestCase J) → CaseRow D → Stored D C → Type 0
  Discloses results cases r stored =
      ((Sample cases r.test_case_id ⊎ FirstFail results r.test_case_id)
        × ((e : Option (C × C)) × (stored ≡ whole r e)))
      ⊎ ((¬ Sample cases r.test_case_id)
          × ((¬ FirstFail results r.test_case_id)
              × (stored ≡ reduced r.test_case_id r.status r.runtime_ms)))

  -- The rows that are stored, each beside the row that it is of.
  abbrev pub AllDisclose :
      List (CaseRow D) → List (TestCase J) → List (CaseRow D) → List (Stored D C) → Type 0
  AllDisclose results cases [] [] = Unit
  AllDisclose results cases (r ∷ rs) (x ∷ xs) =
      Discloses results cases r x × AllDisclose results cases rs xs
  AllDisclose results cases _ _ = ⊥

  stored_row-Discloses :
      (results : List (CaseRow D)) (cases : List (TestCase J)) (r : CaseRow D)
      → Discloses results cases r (stored_row cases (first_fail results) r)
  unfolding stored_row Discloses
  stored_row-Discloses results cases r =
      go (in_samples cases r.test_case_id) (is_first_fail (first_fail results) r.test_case_id) refl
        refl
    where
      kept : Option (C × C)
      kept = embedded (in_samples cases r.test_case_id) (case_by_ord cases r.test_case_id)

      go :
          (sample fail : Bool)
          → in_samples cases r.test_case_id ≡ sample
          → is_first_fail (first_fail results) r.test_case_id ≡ fail
          → let stored =
              if sample || fail
              then whole r kept
              else reduced r.test_case_id r.status r.runtime_ms in
            ((Sample cases r.test_case_id ⊎ FirstFail results r.test_case_id)
              × ((e : Option (C × C)) × (stored ≡ whole r e)))
            ⊎ ((¬ Sample cases r.test_case_id)
                × ((¬ FirstFail results r.test_case_id)
                    × (stored ≡ reduced r.test_case_id r.status r.runtime_ms)))
      go true fail e g = inl (inl (in_samples-Sample cases r.test_case_id e), (kept, refl))
      go false true e g = inl (inr (first_fail-FirstFail results r.test_case_id g), (kept, refl))
      go false false e g = inr (
        λ s. ground (arith, sym e ∙ Sample-in_samples cases r.test_case_id s),
        (λ t. ground (arith, sym g ∙ FirstFail-first_fail results r.test_case_id t), refl),
      )

  -- The rows are stored in their order, and of the cases that are no samples only the first that
  -- failed is stored with more than its id, status and time.
  pub build_verdict_results-Discloses :
      (results : List (CaseRow D)) (cases : List (TestCase J))
      → AllDisclose results cases results (build_verdict_results results cases)
  unfolding build_verdict_results
  build_verdict_results-Discloses results cases = every results
    where
      every :
          (rs : List (CaseRow D))
          → AllDisclose results cases rs (map (stored_row cases (first_fail results)) rs)
      every [] = tt
      every (r ∷ rs) = (stored_row-Discloses results cases r, every rs)
