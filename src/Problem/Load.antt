-- ===== src/Problem/Load.antt =====
-- The whole of a problem file's validation, with what it rewrites: the comparison
-- (`_custom_validator_for_every_language`) and the codes (`_solution_code_per_language`).
pub mod Stored
pub mod Stable
pub mod Validators
use Prim.Native.String.{String}
use shikomi.Prelude.{
  ℕ, ◌==◌, Bool, true, false, ◌&&◌, ◌||◌, not, Option, none, some, List, [], ◌∷◌, ◌++◌, length,
  all_of, any_of, map, if◌then◌else◌, and_then,
}
use shikomi.Prelude.Text.{str_eq}
use shikomi.Json.{Json, Fields, get}
use shikomi.Problem.{
  Code, one, each, SolutionIn, ProblemFile, LanguageVariant, is_empty, names, metadata_ok,
  stored_comparison,
}
use shikomi.Problem.Wires.{Read}
use shikomi.Problem.Cases.{cases_ok}

abbrev pub code_languages : Code → List String
code_languages (one s) = []
code_languages (each m) = map (λ e. e.0) m

-- The normal form of one solution's code.
unfoldable pub code_per_language : List String → Code → Option Code
code_per_language (lang ∷ []) (one s) = some (each ((lang, s) ∷ []))
code_per_language _ (one s) = none
code_per_language declared (each m) =
    if not (is_empty m) && all_of (λ e. any_of (str_eq e.0) declared) m then some (each m) else none

-- Each element through a check that may rewrite it.
abbrev pub each_of {ℓ} : {A : Type ℓ} → (A → Option A) → List A → Option (List A)
each_of f [] = some []
each_of f (x ∷ xs) = and_then (f x) (λ y. and_then (each_of f xs) (λ ys. some (y ∷ ys)))

abbrev pub solution_with : List String → SolutionIn → Option SolutionIn
solution_with declared s =
    and_then (code_per_language declared s.code) (λ c. some (record s { code = c }))

-- Every language has a solution, where there is any.
unfoldable pub all_covered : List String → List SolutionIn → Bool
all_covered declared solutions =
    is_empty solutions
    || all_of (λ lang. any_of (λ s. any_of (str_eq lang) (code_languages s.code)) solutions)
        declared

module _ {N : Type 0} (read : Read N) (blank : String → Bool)
    (call_problem : Option (Json N) → Bool) where
  -- `ProblemFile.model_validate` of a file in the form with `languages`
  unfoldable pub load : ProblemFile N → Option (ProblemFile N)
  unfolding metadata_ok cases_ok stored_comparison code_per_language all_covered
  load file =
      let declared = names file.languages in
      and_then (stored_comparison blank call_problem file.languages file.comparison) (λ comparison.
        and_then (each_of (solution_with declared) file.solutions) (λ solutions.
          and_then (each_of (code_per_language declared) file.wrong_solutions) (λ wrong_solutions.
            if metadata_ok file
              && cases_ok read file (get "mode" file.comparison)
              && all_covered declared solutions
            then some (record file {
              comparison = comparison;
              solutions = solutions;
              wrong_solutions = wrong_solutions;
            })
            else none)))
