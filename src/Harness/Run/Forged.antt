-- ===== src/Harness/Run/Forged.antt =====
-- What a frame must hold for its case to pass, whoever wrote it.
use mathlib.Core.Option.{none-ne-some, some-injective}
use shikomi.Prelude.{
  and_then, ap, ◌∙◌, sym, Option, some, ◌≡◌, ◌≤◌, refl, Bool, true, false, not, ◌&&◌, ◌||◌, ◌==◌,
  none, arith, if◌then◌else◌,
}
use shikomi.Json.{Number, Json, Fields, get}
use shikomi.Harness.Compare.{Comparison, compare}
use shikomi.Harness.Nesting.{nests_too_deeply, depth, nests_too_deeply-depth}
use shikomi.Harness.Run.{
  Row, TestCase, is_passed, finalize, has_status, or_null, max_nesting, judge_value, number_or_zero,
  finalize_at, answer_row, answered,
}

module _ (number : Number) (micro : Number.N number) (finite : Number.N number → Bool) where
  open number use {N}

  -- A row that passed came from the other branch, if this one gives no passed row.
  rest_passed :
      (b : Bool) (r r' : Row N) (o : Option (Row N))
      → is_passed r.status ≡ false
      → (if b then some r else o) ≡ some r'
      → is_passed r'.status ≡ true
      → (b ≡ false) × (o ≡ some r')
  rest_passed true r r' o n e h =
      absurd (ground (arith, sym n ∙ ap (λ r. is_passed r.status) (some-injective r r' e) ∙ h))
  rest_passed false r r' o n e h = (refl, e)

  value_passed :
      (comparison : Comparison N) (tc : TestCase N) (reply : Fields N) (time : N) (actual : Json N)
      (r : Row N)
      → judge_value number micro finite none comparison tc reply time actual ≡ some r
      → is_passed r.status ≡ true
      → compare number micro actual tc.expected comparison ≡ some true
  unfolding judge_value
  value_passed comparison tc reply time actual r e h =
      go (compare number micro actual tc.expected comparison) e
    where
      go :
          (o : Option Bool)
          → and_then o (λ b. some (answer_row number micro finite tc time (answered b))) ≡ some r
          → o ≡ some true
      go none e = absurd (none-ne-some r e)
      go (some true) e = refl
      go (some false) e =
          absurd (ground (arith, ap (λ r. is_passed r.status) (some-injective _ r e) ∙ h))

  shallow :
      (v : Json N) (b : Bool)
      → (nests_too_deeply v max_nesting || b) ≡ false
      → depth v ≤ max_nesting
  shallow v b h = ground (arith, nests_too_deeply-depth v max_nesting)

  -- The conditions that a passed case has met.
  unfoldable pub Judged : TestCase N → Fields N → Comparison N → Type 0
  Judged tc reply comparison =
      (compare number micro (or_null (get "actual" reply)) tc.expected comparison ≡ some true)
      × ((depth (or_null (get "actual" reply)) ≤ max_nesting)
          × ((has_status "__crash__" reply ≡ false)
              × ((has_status "__hang__" reply || has_status "time_limit_exceeded" reply ≡ false)
                  × (has_status "runtime_error" reply ≡ false))))

  finalize_at-passed :
      (tc : TestCase N) (reply : Fields N) (comparison : Comparison N) (r : Row N) (time : N)
      → finalize_at number micro finite tc reply comparison none time ≡ some r
      → is_passed r.status ≡ true
      → Judged tc reply comparison
  unfolding finalize_at Judged
  finalize_at-passed tc reply comparison r time e h =
      let crash = rest_passed (has_status "__crash__" reply) _ r _ refl e h in
      let late =
        rest_passed (has_status "__hang__" reply || has_status "time_limit_exceeded" reply) _ r _
          refl crash.1 h in
      let raised = rest_passed (has_status "runtime_error" reply) _ r _ refl late.1 h in
      let probe =
        rest_passed (has_status "probe_error" reply && not (tc.probes == 0)) _ r _ refl raised.1
          h in
      let deep =
        rest_passed
          (nests_too_deeply (or_null (get "actual" reply)) max_nesting
            || (not (tc.probes == 0)
                && nests_too_deeply (or_null (get "probe_results" reply)) max_nesting))
          _ r _ refl probe.1 h in
      (
        value_passed comparison tc reply time (or_null (get "actual" reply)) r deep.1 h,
        (shallow (or_null (get "actual" reply)) _ deep.0, (crash.0, (late.0, raised.0))),
      )

  -- Without a validator a frame passes its case only if the value in it compares equal to the expected
  -- one in the problem's mode and nests no deeper than the limit; a frame with a failure's status
  -- does not pass.
  pub finalize-passed :
      (tc : TestCase N) (reply : Fields N) (comparison : Comparison N) (r : Row N)
      → finalize number micro finite tc reply comparison none ≡ some r
      → is_passed r.status ≡ true
      → (compare number micro (or_null (get "actual" reply)) tc.expected comparison ≡ some true)
        × ((depth (or_null (get "actual" reply)) ≤ max_nesting)
            × ((has_status "__crash__" reply ≡ false)
                × ((has_status "__hang__" reply || has_status "time_limit_exceeded" reply ≡ false)
                    × (has_status "runtime_error" reply ≡ false))))
  unfolding finalize Judged
  finalize-passed tc reply comparison r e h =
      go (number_or_zero number micro finite (get "runtime_ms" reply)) e
    where
      go :
          (o : Option N)
          → and_then o (finalize_at number micro finite tc reply comparison none) ≡ some r
          → Judged tc reply comparison
      go none e = absurd (none-ne-some r e)
      go (some time) e = finalize_at-passed tc reply comparison r time e h
