-- ===== src/Problem/Load/Stable.antt =====
-- A loaded problem file loads again.
use Prim.Native.String.{String}
use shikomi.Prelude.{
  subst, ◌≡◌, refl, ap, ap₂, ◌∙◌, sym, Bool, true, ◌&&◌, not, Option, some, List, [], ◌∷◌, all_of,
  any_of, map, and_then, &&-eq-true,
}
use mathlib.Core.Option.{none-ne-some, some-injective}
use shikomi.Prelude.Text.{str_eq, eq_refl}
use shikomi.Json.{Json, Fields, get}
use shikomi.Problem.{
  Code, one, each, SolutionIn, ProblemFile, is_empty, names, metadata_ok, stored_comparison,
}
use shikomi.Problem.Wires.{Read}
use shikomi.Problem.Cases.{cases_ok}
use shikomi.Problem.Load.{code_per_language, each_of, solution_with, all_covered, load}
use shikomi.Problem.Load.Stored.{
  and_then-some, if-some, Stored, stored_comparison-Stored, mode-Stored, stored_comparison-stable,
}

-- A check that accepts its own results accepts a list of them unchanged.
each_of-stable {ℓ} :
    {A : Type ℓ} (f : A → Option A)
    → ((x y : A) → f x ≡ some y → f y ≡ some y)
    → (xs ys : List A) → each_of f xs ≡ some ys
    → each_of f ys ≡ some ys
each_of-stable f stable [] ys e = ap (each_of f) (sym (some-injective [] ys e)) ∙ e
each_of-stable f stable (x ∷ xs) ys e =
    let (y, q, r) = and_then-some (f x) (λ y. and_then (each_of f xs) (λ ys. some (y ∷ ys))) ys e in
    let (zs, s, t) = and_then-some (each_of f xs) (λ ys. some (y ∷ ys)) ys r in
    let same = some-injective (y ∷ zs) ys t in
    subst (λ ws. each_of f ws ≡ some ws) same
      (rw (stable x y q, each_of-stable f stable xs zs s) refl)

code_per_language-stable :
    (declared : List String) (x y : Code)
    → code_per_language declared x ≡ some y
    → code_per_language declared y ≡ some y
unfolding code_per_language
code_per_language-stable (lang ∷ []) (one s) y e =
    let m = (lang, s) ∷ [] in
    subst (λ y. code_per_language (lang ∷ []) y ≡ some y) (some-injective (each m) y e)
      (rw (eq_refl lang) refl)
code_per_language-stable [] (one s) y e = absurd (none-ne-some y e)
code_per_language-stable (lang ∷ other ∷ rest) (one s) y e = absurd (none-ne-some y e)
code_per_language-stable declared (each m) y e =
    let (t, same) =
      if-some (not (is_empty m) && all_of (λ e. any_of (str_eq e.0) declared) m) (each m) y e in
    subst (λ y. code_per_language declared y ≡ some y) same (rw t refl)

solution_with-stable :
    (declared : List String) (x y : SolutionIn)
    → solution_with declared x ≡ some y
    → solution_with declared y ≡ some y
solution_with-stable declared x y e =
    let (c, q, r) =
      and_then-some (code_per_language declared x.code) (λ c. some (record x { code = c })) y e in
    subst (λ y. solution_with declared y ≡ some y) (some-injective (record x { code = c }) y r)
      (rw (code_per_language-stable declared x.code c q) refl)

module _ {N : Type 0} (read : Read N) (blank : String → Bool)
    (call_problem : Option (Json N) → Bool) where
  -- The steps of a load that succeeds.
  pub record IsLoaded (f g : ProblemFile N) : Type 0 where
    pub comparison : Fields N
    pub solutions : List SolutionIn
    pub wrong_solutions : List Code
    pub stored : Stored blank call_problem f.languages f.comparison comparison
    pub solved : each_of (solution_with (names f.languages)) f.solutions ≡ some solutions
    pub wronged :
        each_of (code_per_language (names f.languages)) f.wrong_solutions ≡ some wrong_solutions
    pub metadata : metadata_ok f ≡ true
    pub cases : cases_ok read f (get "mode" f.comparison) ≡ true
    pub covered : all_covered (names f.languages) solutions ≡ true
    pub result :
        record f {
          comparison = comparison;
          solutions = solutions;
          wrong_solutions = wrong_solutions;
        }
        ≡ g

  pub load-IsLoaded : (f g : ProblemFile N) → load read blank call_problem f ≡ some g → IsLoaded f g
  unfolding load
  load-IsLoaded f g e =
      let (c, p, e1) =
        and_then-some (stored_comparison blank call_problem f.languages f.comparison) _ g e in
      let (ss, q, e2) =
        and_then-some (each_of (solution_with (names f.languages)) f.solutions) _ g e1 in
      let (ws, r, e3) =
        and_then-some (each_of (code_per_language (names f.languages)) f.wrong_solutions) _ g e2 in
      let (ok, same) =
        if-some
          (metadata_ok f
            && cases_ok read f (get "mode" f.comparison)
            && all_covered (names f.languages) ss)
          (record f { comparison = c; solutions = ss; wrong_solutions = ws }) g e3 in
      let (a, k) =
        &&-eq-true (metadata_ok f && cases_ok read f (get "mode" f.comparison))
          (all_covered (names f.languages) ss) ok in
      let (m, d) = &&-eq-true (metadata_ok f) (cases_ok read f (get "mode" f.comparison)) a in
      record {
        comparison = c;
        solutions = ss;
        wrong_solutions = ws;
        stored = stored_comparison-Stored blank call_problem f.languages f.comparison c p;
        solved = q;
        wronged = r;
        metadata = m;
        cases = d;
        covered = k;
        result = same;
      }

  ordinals-solution_with :
      (declared : List String) (xs ys : List SolutionIn)
      → each_of (solution_with declared) xs ≡ some ys
      → map (λ s. s.ordinal) ys ≡ map (λ s. s.ordinal) xs
  ordinals-solution_with declared [] ys e = ap (map (λ s. s.ordinal)) (sym (some-injective [] ys e))
  ordinals-solution_with declared (x ∷ xs) ys e =
      let (y, q, r) = and_then-some (solution_with declared x) _ ys e in
      let (zs, s, t) = and_then-some (each_of (solution_with declared) xs) _ ys r in
      let (c, u, v) = and_then-some (code_per_language declared x.code) _ y q in
      ap (map (λ s. s.ordinal)) (sym (some-injective (y ∷ zs) ys t))
      ∙ ap₂ (λ n ns. n ∷ ns)
          (ap (λ s. s.ordinal) (sym (some-injective (record x { code = c }) y v)))
          (ordinals-solution_with declared xs zs s)

  -- The steps of a load, and its result.
  load-some :
      (f : ProblemFile N) (c : Fields N) (ss : List SolutionIn) (ws : List Code)
      → stored_comparison blank call_problem f.languages f.comparison ≡ some c
      → each_of (solution_with (names f.languages)) f.solutions ≡ some ss
      → each_of (code_per_language (names f.languages)) f.wrong_solutions ≡ some ws
      → metadata_ok f ≡ true
      → cases_ok read f (get "mode" f.comparison) ≡ true
      → all_covered (names f.languages) ss ≡ true
      → load read blank call_problem f
        ≡ some (record f { comparison = c; solutions = ss; wrong_solutions = ws })
  unfolding load
  load-some f c ss ws p q r m d k = rw (p, q, r, m, d, k) refl

  metadata_ok-kept :
      (f : ProblemFile N) (c : Fields N) (ss : List SolutionIn) (ws : List Code)
      → metadata_ok (record f { comparison = c; solutions = ss; wrong_solutions = ws })
        ≡ metadata_ok f
  unfolding metadata_ok
  metadata_ok-kept f c ss ws = refl

  cases_ok-kept :
      (f : ProblemFile N) (c : Fields N) (ss : List SolutionIn) (ws : List Code)
      (mode : Option (Json N))
      → map (λ s. s.ordinal) ss ≡ map (λ s. s.ordinal) f.solutions
      → cases_ok read (record f { comparison = c; solutions = ss; wrong_solutions = ws }) mode
        ≡ cases_ok read f mode
  unfolding cases_ok
  cases_ok-kept f c ss ws mode e = rw e refl

  -- A problem file that loads is stored in a form that loads again, unchanged.
  pub load-load :
      (f g : ProblemFile N)
      → load read blank call_problem f ≡ some g
      → load read blank call_problem g ≡ some g
  load-load f g e =
      let l = load-IsLoaded f g e in
      let declared = names f.languages in
      let same = ordinals-solution_with declared f.solutions l.solutions l.solved in
      subst (λ g. load read blank call_problem g ≡ some g) l.result
        (load-some
          (record f {
            comparison = l.comparison;
            solutions = l.solutions;
            wrong_solutions = l.wrong_solutions;
          })
          l.comparison l.solutions l.wrong_solutions
          (stored_comparison-stable blank call_problem f.languages f.comparison l.comparison
            l.stored)
          (each_of-stable (solution_with declared) (solution_with-stable declared) f.solutions
            l.solutions l.solved)
          (each_of-stable (code_per_language declared) (code_per_language-stable declared)
            f.wrong_solutions l.wrong_solutions l.wronged)
          (metadata_ok-kept f l.comparison l.solutions l.wrong_solutions ∙ l.metadata)
          (cases_ok-kept f l.comparison l.solutions l.wrong_solutions (get "mode" l.comparison) same
            ∙ ap (cases_ok read f)
                (mode-Stored blank call_problem f.languages f.comparison l.comparison l.stored)
            ∙ l.cases)
          l.covered)
