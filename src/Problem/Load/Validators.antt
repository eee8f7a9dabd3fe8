-- ===== src/Problem/Load/Validators.antt =====
-- The validators of a loaded problem, as the judge resolves them with `for_language` of
-- backend/app/comparison.py.
use Prim.Native.String.{String}
use shikomi.Prelude.{
  ℕ, ◌≡◌, refl, ap, ◌∙◌, Bool, true, false, Option, none, some, List, inl, inr, &&-eq-true,
  get_elem?, arith, subst, and_then, not, ◌&&◌, if◌then◌else◌,
}
use shikomi.Json.{Json, null, bool, num, str, arr, obj, Fields, get}
use shikomi.Verdict.{is_text}
use shikomi.Comparison.{
  set, validator_codes, is_custom, get-set, for_language, when_code, when_codes,
}
use shikomi.Sandbox.{language_name}
use shikomi.Problem.{LanguageVariant, ProblemFile, keys, is_empty, covers, is_source}
use shikomi.Problem.Wires.{Read}
use shikomi.Problem.Load.{load}
use shikomi.Problem.Load.Stored.{Stored, or_exact-custom, validator_codes-set}
use shikomi.Problem.Load.Stable.{load-IsLoaded}
use shikomi.Harness.Nodes.Segment.{all_of-get_elem?}

module _ {N : Type 0} (blank : String → Bool) where
  -- A language's own source that is not blank, and the comparison that its harness gets.
  pub record IsJudged (given stored : Fields N) (language : String) : Type 0 where
    pub code : String
    pub comparison : Fields N
    pub own : and_then (validator_codes given) (get language) ≡ some (str code)
    pub not_blank : blank code ≡ false
    pub resolves : for_language blank (some stored) language ≡ some comparison
    pub has_code : get "validator_code" comparison ≡ some (str code)

  source-is_source :
      (o : Option (Json N))
      → is_source blank o ≡ true
      → (s : String) × (o ≡ some (str s)) × (blank s ≡ false)
  source-is_source (some (str s)) t = (s, refl, ground arith)
  source-is_source none t = absurd (ground arith)
  source-is_source (some null) t = absurd (ground arith)
  source-is_source (some (bool b)) t = absurd (ground arith)
  source-is_source (some (num n)) t = absurd (ground arith)
  source-is_source (some (arr xs)) t = absurd (ground arith)
  source-is_source (some (obj fs)) t = absurd (ground arith)

  resolved-for_language :
      (d code : Fields N) (s lang : String)
      → is_custom d ≡ true
      → validator_codes d ≡ some code
      → get lang code ≡ some (str s)
      → blank s ≡ false
      → for_language blank (some d) lang ≡ some (set "validator_code" (str s) d)
  unfolding for_language
  resolved-for_language d code s lang custom known has full =
      ap (λ d. if is_custom d then when_codes blank d lang (validator_codes d) else some d)
        (or_exact-custom d custom)
      ∙ ap (λ b. if b then when_codes blank d lang (validator_codes d) else some d) custom
      ∙ ap (when_codes blank d lang) known
      ∙ ap (when_code blank d) has
      ∙ ap (λ b. if b then none else some (set "validator_code" (str s) d)) full

  module _ (call_problem : Option (Json N) → Bool) (offered : List LanguageVariant) where
    IsJudged-Stored :
        (c d : Fields N) (v : LanguageVariant) (i : ℕ)
        → is_custom c ≡ true
        → Stored blank call_problem offered c d
        → get_elem? offered i ≡ some v
        → IsJudged c d (language_name v.language)
    unfolding Stored for_language
    IsJudged-Stored c d v i t (inl (f, same)) e = absurd (ground (arith, t, f))
    IsJudged-Stored c d v i t (inr (u, code, known, ok, same)) e =
        let lang = language_name v.language in
        let stored = set "validator_code" (obj code) c in
        let (a, b) =
          &&-eq-true (not (is_empty (keys code)) && covers blank offered code)
            (not (call_problem (get "python" code))) ok in
        let covered = (&&-eq-true (not (is_empty (keys code))) (covers blank offered code) a).1 in
        let every = (&&-eq-true _ _ covered).0 in
        let here = all_of-get_elem? _ offered i v every e in
        let (s, has, full) = source-is_source (get lang code) (&&-eq-true _ _ here).1 in
        let custom : is_custom stored ≡ true =
          ap (is_text "custom_validator") (get-set "validator_code" "mode" (obj code) c) ∙ t in
        subst (λ d. IsJudged c d lang) same
          (record {
            code = s;
            comparison = set "validator_code" (str s) stored;
            own = ap (λ o. and_then o (get lang)) known ∙ has;
            not_blank = full;
            resolves =
                resolved-for_language stored code s lang custom
                  (validator_codes-set blank call_problem offered c code) has full;
            has_code = get-set "validator_code" "validator_code" (str s) stored;
          })

module _ {N : Type 0} (read : Read N) (blank : String → Bool)
    (call_problem : Option (Json N) → Bool) where
  -- Once a problem with a custom validator has loaded, the judge resolves the stored comparison for
  -- every language that the problem offers, to the language's own source, which is not blank.
  pub load-IsJudged :
      (f g : ProblemFile N) (v : LanguageVariant) (i : ℕ)
      → load read blank call_problem f ≡ some g
      → is_custom f.comparison ≡ true
      → get_elem? g.languages i ≡ some v
      → IsJudged blank f.comparison g.comparison (language_name v.language)
  load-IsJudged f g v i e t at =
      let l = load-IsLoaded read blank call_problem f g e in
      let offers = ap (λ g. get_elem? g.languages i) l.result ∙ at in
      subst (λ g. IsJudged blank f.comparison g.comparison (language_name v.language)) l.result
        (IsJudged-Stored blank call_problem f.languages f.comparison l.comparison v i t l.stored
          offers)
