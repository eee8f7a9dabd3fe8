-- ===== src/Budget.antt =====
-- backend/app/judge_budget.py, in milliseconds and with exact division where the source has floats.
-- `startup` is the start-up slack of the language's sandbox profile.
use native.Mathlib.Nat.{le-div_iff_mul-le}
use shikomi.Prelude.{
  ℕ, ◌≡◌, ◌≤◌, ◌<◌, ◌+◌, ◌-◌, ◌*◌, ◌/◌, Bool, ltb, leb, arith, suc, sym, ◌∙◌, Bool-cases, inl, inr,
  ltb→lt, lt→ltb, leb→le, le→leb,
}

-- JUDGE_JOB_TIMEOUT_SECONDS, WALL_CLOCK_SLACK_S and KILL_AND_WRITE_MARGIN_S
abbrev judge_job_timeout : ℕ
judge_job_timeout = 300000

abbrev wall_clock_slack : ℕ
wall_clock_slack = 10000

abbrev kill_and_write_margin : ℕ
kill_and_write_margin = 10000

unfoldable pub wall_budget : ℕ → ℕ → ℕ → ℕ
wall_budget case_count time_limit startup = case_count * time_limit + wall_clock_slack + startup

unfoldable pub fits_job_timeout : ℕ → ℕ → ℕ → Bool
unfolding wall_budget
fits_job_timeout case_count time_limit startup =
    ltb (wall_budget case_count time_limit startup + kill_and_write_margin) judge_job_timeout

-- `max(0, math.ceil(headroom / time_limit) - 1)`: a negative headroom gives 0 either way.
unfoldable pub max_cases_within_job_timeout : ℕ → ℕ → ℕ
max_cases_within_job_timeout time_limit startup =
    let headroom = judge_job_timeout - kill_and_write_margin - wall_clock_slack - startup in
    (headroom + time_limit - 1) / time_limit - 1

-- `n <= ceil(h / l) - 1` exactly when `n * l < h`.
ceiling : (n l h : ℕ) → 1 ≤ l → 1 ≤ h → ltb (n * l) h ≡ leb n ((h + l - 1) / l - 1)
ceiling n l h pos some_h =
    let expand : suc n * l ≡ n * l + l = grind arith in
    let iff = le-div_iff_mul-le {k = l} {x = suc n} {y = h + l - 1} (omega arith) in
    let one = le-div_iff_mul-le {k = l} {x = 1} {y = h + l - 1} (omega arith) in
    let least : 1 ≤ (h + l - 1) / l = one.1 (omega arith) in
    elim (Bool-cases (ltb (n * l) h)) [
      | inl t ↦
          let le = iff.1 (omega (arith, ltb→lt (n * l) h t, expand)) in
          t ∙ sym (le→leb n ((h + l - 1) / l - 1) (omega (arith, le)))
      | inr g ↦ elim (Bool-cases (leb n ((h + l - 1) / l - 1))) [
        | inl t ↦
            let le : suc n * l ≤ h + l - 1 =
              iff.0 (omega (arith, leb→le n ((h + l - 1) / l - 1) t, least)) in
            let lt : n * l < h = omega (arith, le, expand) in lt→ltb (n * l) h lt ∙ sym t
        | inr f ↦ g ∙ sym f
      ]
    ]

-- For a positive time limit and a start-up that leaves room at all, a number of cases fits the job
-- timeout exactly when it is at most the number that the error message names.
pub fits_job_timeout-max_cases_within_job_timeout :
    (case_count time_limit startup : ℕ)
    → 1 ≤ time_limit
    → startup < 280000
    → fits_job_timeout case_count time_limit startup
      ≡ leb case_count (max_cases_within_job_timeout time_limit startup)
unfolding fits_job_timeout max_cases_within_job_timeout
fits_job_timeout-max_cases_within_job_timeout n l s pos room =
    let h : ℕ = judge_job_timeout - kill_and_write_margin - wall_clock_slack - s in
    inside (n * l) s room ∙ ceiling n l h pos (omega arith)
  where
    inside :
        (a s : ℕ)
        → s < 280000
        → ltb (a + wall_clock_slack + s + kill_and_write_margin) judge_job_timeout
          ≡ ltb a (judge_job_timeout - kill_and_write_margin - wall_clock_slack - s)
    inside a s room = ground arith
