-- ===== src/Problem.antt =====
-- backend/app/schemas/problem.py: the validators of a problem file. Every check that fails rejects the
-- file, so their order does not matter. Ordinals are numbers that are only compared. `blank` is
-- `not s.strip()`, and `call_problem` is `validator_call_problem`, which reads Python's syntax trees.
pub mod Wires
pub mod Cases
pub mod Load
use Prim.Native.String.{String}
use shikomi.Prelude.{
  ℕ, ◌==◌, Bool, true, false, ◌&&◌, ◌||◌, not, Option, none, some, List, [], ◌∷◌, length, ltb, leb,
  all_of, any_of, map, if◌then◌else◌,
}
use shikomi.Prelude.Text.{str_eq}
use shikomi.Json.{Json, str, obj, Fields, end, field, get}
use shikomi.Comparison.{set, validator_codes, is_custom}
use shikomi.Sandbox.{
  Language, mysql, language_name, NodeType, list_node, tree_node, list_nodes, tree_nodes,
  cyclic_list, random_list, graph, iterator, SandboxProfile, profile_for,
}
use shikomi.Harness.Operations.{Probe, probe_count}

pub data Kind : Type 0 where
  function operations sql : Kind

-- `type` is `none` for a type that names no node codec.
pub record ParamSpec : Type 0 where
  pub name : String
  pub node_type : Option NodeType

-- `return_type` is `none` for "".
pub record LanguageVariant : Type 0 where
  pub language : Language
  pub function_name : Option String
  pub class_name : Option String
  pub params : List ParamSpec
  pub return_type : Option NodeType

pub record TestCaseIn (N : Type 0) : Type 0 where
  pub ordinal : ℕ
  pub input : List (Json N)
  pub expected : Json N
  pub is_sample : Bool
  pub probes : List (Probe N)

-- One language's code as a text, or each language's.
pub data Code : Type 0 where
  one : String → Code
  each : List (String × String) → Code

pub record SolutionIn : Type 0 where
  pub ordinal : ℕ
  pub code : Code

pub record ProblemFile (N : Type 0) : Type 0 where
  pub kind : Kind
  pub languages : List LanguageVariant
  pub comparison : Fields N
  pub time_limit_ms : ℕ
  pub memory_limit_mb : ℕ
  pub test_cases : List (TestCaseIn N)
  pub solutions : List SolutionIn
  pub wrong_solutions : List Code

-- `len(xs) == len(set(xs))`
abbrev pub all_distinct {ℓ} : {A : Type ℓ} → (A → A → Bool) → List A → Bool
all_distinct same [] = true
all_distinct same (x ∷ xs) = not (any_of (same x) xs) && all_distinct same xs

abbrev pub names : List LanguageVariant → List String
names = map (λ v. language_name v.language)

abbrev pub is_empty {ℓ} : {A : Type ℓ} → List A → Bool
is_empty [] = true
is_empty (x ∷ xs) = false

-- Whether an optional text is set and not empty.
abbrev pub is_given : Option String → Bool
is_given none = false
is_given (some s) = not (str_eq s "")

abbrev pub is_sql : Kind → Bool
is_sql sql = true
is_sql _ = false

abbrev pub is_function : Kind → Bool
is_function function = true
is_function _ = false

-- `_exactly_one_name_for_kind`, of one language
unfoldable pub has_name_for : Kind → LanguageVariant → Bool
has_name_for function v = is_given v.function_name && not (is_given v.class_name)
has_name_for operations v = is_given v.class_name && not (is_given v.function_name)
has_name_for sql v = not (is_given v.function_name || is_given v.class_name)

abbrev pub supports : SandboxProfile → Option NodeType → Bool
supports profile none = true
supports profile (some t) = profile.node_types t

-- `_language_supports_kind_and_codecs`, of one language
unfoldable pub supports_kind_and_codecs : Kind → LanguageVariant → Bool
unfolding profile_for
supports_kind_and_codecs kind v =
    let profile = profile_for v.language in
    not (profile.function_mode_only && not (is_function kind))
    && all_of (supports profile) (v.return_type ∷ map (λ p. p.node_type) v.params)

-- `_same_params_in_every_language`
unfoldable pub same_params : List LanguageVariant → Bool
same_params [] = true
same_params (v ∷ vs) = all_of (λ w. length w.params == length v.params) vs

-- `_sql_kind_and_language_are_paired`, of one language
unfoldable pub sql_is_paired : Kind → LanguageVariant → Bool
sql_is_paired kind v =
    if is_sql kind
    then str_eq (language_name v.language) "mysql" && is_empty v.params && no_return v.return_type
    else not (str_eq (language_name v.language) "mysql")
  where
    no_return : Option NodeType → Bool
    no_return none = true
    no_return (some t) = false

-- The bounds of the fields of `ProblemIn` and its validators, but for the custom validator.
unfoldable pub metadata_ok : {N : Type 0} → ProblemFile N → Bool
unfolding has_name_for supports_kind_and_codecs same_params sql_is_paired profile_for
metadata_ok file =
    not (is_empty file.languages)
    && (ltb 0 file.time_limit_ms && leb file.time_limit_ms 30000)
    && (ltb 0 file.memory_limit_mb && leb file.memory_limit_mb 2048)
    && all_distinct str_eq (names file.languages)
    && all_of (has_name_for file.kind) file.languages
    && all_of (supports_kind_and_codecs file.kind) file.languages
    && same_params file.languages
    && all_of (λ v. leb (profile_for v.language).min_memory_limit_mb file.memory_limit_mb)
        file.languages
    && all_of (sql_is_paired file.kind) file.languages

module _ {N : Type 0} where
  abbrev pub keys : Fields N → List String
  keys end = []
  keys (field k v fs) = k ∷ keys fs

  abbrev pub is_source : (String → Bool) → Option (Json N) → Bool
  is_source blank (some (str s)) = not (blank s)
  is_source blank _ = false

  -- The loop over the offered languages and the refusal of other keys.
  abbrev pub covers : (String → Bool) → List LanguageVariant → Fields N → Bool
  covers blank offered code =
      all_of
        (λ v.
          (profile_for v.language).custom_validator
          && is_source blank (get (language_name v.language) code))
        offered
      && all_of (λ k. any_of (str_eq k) (names offered)) (keys code)

  module _ (blank : String → Bool) (call_problem : Option (Json N) → Bool)
      (offered : List LanguageVariant) where
    abbrev pub codes_ok : Fields N → Bool
    codes_ok code =
        not (is_empty (keys code))
        && covers blank offered code
        && not (call_problem (get "python" code))

    abbrev pub with_codes : Fields N → Option (Fields N) → Option (Fields N)
    with_codes comparison none = none
    with_codes comparison (some code) =
        if codes_ok code then some (set "validator_code" (obj code) comparison) else none

    -- `_custom_validator_for_every_language`: the comparison as it is stored.
    unfoldable pub stored_comparison : Fields N → Option (Fields N)
    unfolding validator_codes set profile_for
    stored_comparison comparison =
        if is_custom comparison
        then with_codes comparison (validator_codes comparison)
        else some comparison

-- MAX_PROBE_CALLS
abbrev pub max_probe_calls : ℕ
max_probe_calls = 20000

module _ {N : Type 0} where
  -- The bounds of `op` and `repeat`, and `_refs_fill_real_args`.
  unfoldable pub refs_fill_real_args : Probe N → Bool
  refs_fill_real_args p =
      not (str_eq p.op "")
      && leb 1 p.repeat
      && leb p.repeat max_probe_calls
      && all_of (λ r. ltb r.0 (length p.args)) p.refs
      && not (ltb 0 (length p.refs) && ltb 1 p.repeat)

  -- Each reference of a probe names an operation after the constructor, of `n` in all.
  abbrev pub refs_name_ops : ℕ → Probe N → Bool
  refs_name_ops n p = all_of (λ r. leb 1 r.1 && ltb r.1 n) p.refs

  -- The check of one case's probes in `_probes_feed_a_probe_validator`.
  unfoldable pub probes_fit : ℕ → List (Probe N) → Bool
  unfolding probe_count
  probes_fit n probes = all_of (refs_name_ops n) probes && leb (probe_count probes) max_probe_calls
