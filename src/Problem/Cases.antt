-- ===== src/Problem/Cases.antt =====
-- The validators of a problem file's test cases (`ProblemFile` of backend/app/schemas/problem.py).
use shikomi.Prelude.{
  ℕ, ◌==◌, Bool, true, false, ◌&&◌, ◌||◌, not, Option, none, some, List, [], ◌∷◌, ◌++◌, length,
  all_of, any_of, map, if◌then◌else◌,
}
use shikomi.Json.{str, Json, num, arr, to_list}
use shikomi.Verdict.{is_text}
use shikomi.Budget.{fits_job_timeout}
use Prim.Native.String.{String}
use shikomi.Prelude.Text.{str_eq}
use shikomi.Harness.Operations.{rest_of}
use shikomi.Sandbox.{
  same_chars, rust_method_name, language_name, NodeType, iterator, cyclic_list, profile_for,
}
use shikomi.Problem.{
  Kind, function, operations, sql, ParamSpec, LanguageVariant, TestCaseIn, ProblemFile,
  all_distinct, is_empty, refs_fill_real_args, probes_fit,
}
use shikomi.Problem.Wires.{
  Read, operations_case, operations_ctor_args, malformed_node_wire, node_values,
}

-- A node-typed argument or expected output of a case.
pub record NodeWire (N : Type 0) : Type 0 where
  pub variant : LanguageVariant
  pub is_output : Bool
  pub node_type : NodeType
  pub wire : Json N

abbrev pub is_iterator : NodeType → Bool
is_iterator iterator = true
is_iterator _ = false

abbrev pub is_cyclic : NodeType → Bool
is_cyclic cyclic_list = true
is_cyclic _ = false

abbrev pub is_operations : Kind → Bool
is_operations operations = true
is_operations _ = false

module _ {N : Type 0} where
  abbrev pub argument_wire : Bool → LanguageVariant → Option NodeType → Json N → List (NodeWire N)
  argument_wire skip v none x = []
  argument_wire skip v (some t) x =
      if skip && is_iterator t
      then []
      else record { variant = v; is_output = false; node_type = t; wire = x } ∷ []

  -- `skip` is whether an `Iterator` is left out.
  abbrev pub argument_wires :
      Bool → LanguageVariant → List ParamSpec → List (Json N) → List (NodeWire N)
  argument_wires skip v [] xs = []
  argument_wires skip v (p ∷ ps) [] = []
  argument_wires skip v (p ∷ ps) (x ∷ xs) =
      argument_wire skip v p.node_type x ++ argument_wires skip v ps xs

  abbrev pub outputs : Bool → Json N → List (Json N)
  outputs true (arr xs) = to_list xs
  outputs _ expected = expected ∷ []

  abbrev pub output_wires : LanguageVariant → Option NodeType → List (Json N) → List (NodeWire N)
  output_wires v none xs = []
  output_wires v (some t) xs =
      map (λ x. record { variant = v; is_output = true; node_type = t; wire = x }) xs

  abbrev pub over {ℓ} : {A : Type ℓ} → (A → List (NodeWire N)) → List A → List (NodeWire N)
  over f [] = []
  over f (x ∷ xs) = f x ++ over f xs

  -- `_node_wires`, where `mode` is the comparison's
  unfoldable pub node_wires :
      Kind → List LanguageVariant → Option (Json N) → TestCaseIn N → List (NodeWire N)
  unfolding operations_ctor_args
  node_wires operations languages mode tc =
      over (λ v. argument_wires true v v.params (operations_ctor_args tc.input)) languages
  node_wires function languages mode tc =
      over
        (λ v.
          argument_wires false v v.params tc.input
          ++ output_wires v v.return_type (outputs (is_text "any_of" mode) tc.expected))
        languages
  node_wires sql languages mode tc = []

  module _ (read : Read N) where
    -- `_node_wires_are_well_formed`, of one wire
    unfoldable pub wire_ok : NodeWire N → Bool
    unfolding malformed_node_wire
    wire_ok w =
        (is_cyclic w.node_type && w.is_output) || not (malformed_node_wire read w.node_type w.wire)

    abbrev pub is_small_integer : Json N → Bool
    is_small_integer (num a) = read.is_i32 a
    is_small_integer _ = false

    -- `_node_values_fit_each_language`, of one wire
    unfoldable pub values_ok : NodeWire N → Bool
    unfolding node_values profile_for
    values_ok w =
        not (profile_for w.variant.language).integer_values
        || all_of is_small_integer (node_values w.node_type w.wire)

    -- Every validator of one case; a case's ordinal is compared below.
    unfoldable pub case_ok : Kind → List LanguageVariant → Option (Json N) → TestCaseIn N → Bool
    unfolding node_wires wire_ok values_ok operations_case refs_fill_real_args probes_fit
    case_ok kind languages mode tc =
        all_of wire_ok (node_wires kind languages mode tc)
        && all_of values_ok (node_wires kind languages mode tc)
        && all_of refs_fill_real_args tc.probes
        && (is_empty tc.probes
            || (is_operations kind
                && is_text "custom_validator" mode
                && probes_fit (length (operations_case tc.input).0) tc.probes))

    -- `methods.get(method)`
    abbrev pub find_method : List ℕ → List (List ℕ × String) → Option String
    find_method name [] = none
    find_method name ((other, op) ∷ methods) =
        if same_chars other name then some op else find_method name methods

    -- The operations one after another, with the `methods` that they map to so far.
    abbrev pub distinct_methods : List (List ℕ × String) → List (Json N) → Bool
    distinct_methods methods [] = true
    distinct_methods methods (str op ∷ ops) = elim (rust_method_name read.chars op) [
      | none ↦ false
      | some name ↦ elim (find_method name methods) [
        | none ↦ distinct_methods ((name, op) ∷ methods) ops
        | some other ↦ str_eq other op && distinct_methods methods ops
      ]
    ]
    distinct_methods methods (op ∷ ops) = false

    -- The operations of a case after the constructor, and those of its probes.
    abbrev pub called_ops : TestCaseIn N → List (Json N)
    called_ops tc = rest_of (operations_case tc.input).0 ++ map (λ p. str p.op) tc.probes

    abbrev pub called_by : List (TestCaseIn N) → List (Json N)
    called_by [] = []
    called_by (tc ∷ cases) = called_ops tc ++ called_by cases

    -- `_ops_are_rust_methods`
    unfoldable pub ops_are_rust_methods : Kind → List LanguageVariant → List (TestCaseIn N) → Bool
    unfolding rust_method_name operations_case
    ops_are_rust_methods kind languages cases =
        not (is_operations kind && any_of (λ v. str_eq (language_name v.language) "rust") languages)
        || distinct_methods [] (called_by cases)

    -- The validators of the test cases together, with `_unique_ordinals` for both lists,
    -- `_has_a_sample_case` and `_fits_judge_budget`.
    unfoldable pub cases_ok : ProblemFile N → Option (Json N) → Bool
    unfolding case_ok fits_job_timeout profile_for ops_are_rust_methods
    cases_ok file mode =
        not (is_empty file.test_cases)
        && all_of (case_ok file.kind file.languages mode) file.test_cases
        && all_distinct (λ a b. a == b) (map (λ tc. tc.ordinal) file.test_cases)
        && all_distinct (λ a b. a == b) (map (λ s. s.ordinal) file.solutions)
        && ops_are_rust_methods file.kind file.languages file.test_cases
        && any_of (λ tc. tc.is_sample) file.test_cases
        && all_of
            (λ v.
              fits_job_timeout (length file.test_cases) file.time_limit_ms
                (profile_for v.language).startup_slack_ms)
            file.languages
