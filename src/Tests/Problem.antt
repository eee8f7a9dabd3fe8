-- ===== src/Tests/Problem.antt =====
-- A problem with a custom validator in two languages, one of which has probes.
use Prim.Native.String.{String}
use shikomi.Prelude.{
  if◌then◌else◌, ℕ, ◌≡◌, refl, ◌==◌, Bool, true, false, Option, none, some, List, [], ◌∷◌,
}
use shikomi.Prelude.Text.{str_eq}
use shikomi.Json.{Json, null, num, str, arr, obj, nil, cons, Fields, end, field}
use shikomi.Sandbox.{snake_case, python, rust, list_node}
use shikomi.Problem.{operations, LanguageVariant, TestCaseIn, one, each, ProblemFile}
use shikomi.Problem.Wires.{Read}
use shikomi.Problem.Load.{load}
use shikomi.Problem.Load.Stable.{load-load}
use shikomi.Problem.Load.Validators.{IsJudged, load-IsJudged}

-- The code points of the texts that occur here.
abbrev chars : String → List ℕ
chars s =
    if str_eq s "encode"
    then 101 ∷ 110 ∷ 99 ∷ 111 ∷ 100 ∷ 101 ∷ []
    else if str_eq s "decode"
    then 100 ∷ 101 ∷ 99 ∷ 111 ∷ 100 ∷ 101 ∷ []
    else 95 ∷ []

abbrev read : Read ℕ
read = record {
  index_of = λ n. some n;
  is_minus_one = λ n. false;
  is_zero = λ n. n == 0;
  is_i32 = λ n. true;
  chars = chars;
}

abbrev blank : String → Bool
blank s = str_eq s ""

abbrev no_problem : Option (Json ℕ) → Bool
no_problem o = false

abbrev python_variant : LanguageVariant
python_variant = record {
  language = python;
  function_name = none;
  class_name = some "Codec";
  params = record { name = "head"; node_type = some list_node } ∷ [];
  return_type = none;
}

abbrev rust_variant : LanguageVariant
rust_variant = record python_variant { language = rust }

abbrev sample : TestCaseIn ℕ
sample = record {
  ordinal = 1;
  input =
      arr (cons (str "Codec") (cons (str "encode") nil))
      ∷ arr (cons (arr (cons (arr (cons (num 4) nil)) nil)) (cons (arr nil) nil))
      ∷ [];
  expected = arr (cons null (cons (num 4) nil));
  is_sample = true;
  probes = record { op = "decode"; args = null ∷ []; refs = (0, 1) ∷ []; repeat = 1 } ∷ [];
}

abbrev codes : Fields ℕ
codes = field "python" (str "def validate(): ...") (field "rust" (str "fn validate() {}") end)

abbrev file : ProblemFile ℕ
file = record {
  kind = operations;
  languages = python_variant ∷ rust_variant ∷ [];
  comparison = field "mode" (str "custom_validator") (field "validator_code" (obj codes) end);
  time_limit_ms = 2000;
  memory_limit_mb = 256;
  test_cases = sample ∷ [];
  solutions = record { ordinal = 1; code = each (("python", "...") ∷ ("rust", "...") ∷ []) } ∷ [];
  wrong_solutions = [];
}

load-load_example : load read blank no_problem file ≡ some file
unfolding load
load-load_example = load-load read blank no_problem file file refl

load-IsJudged_example : IsJudged blank file.comparison file.comparison "rust"
unfolding load
load-IsJudged_example = load-IsJudged read blank no_problem file file rust_variant 1 refl refl refl

-- One language's code as a text becomes the map of it.
abbrev terse : ProblemFile ℕ
terse = record file {
  languages = python_variant ∷ [];
  comparison =
      field "mode" (str "custom_validator")
        (field "validator_code" (str "def validate(): ...") end);
  solutions = record { ordinal = 1; code = one "..." } ∷ [];
}

load-terse :
    load read blank no_problem terse
    ≡ some (record terse {
      comparison =
          field "mode"
            (str "custom_validator")
            (field "validator_code" (obj (field "python" (str "def validate(): ...") end)) end);
      solutions = record { ordinal = 1; code = each (("python", "...") ∷ []) } ∷ [];
    })
unfolding load
load-terse = refl

-- A reference to the constructor is refused.
abbrev bad_ref : ProblemFile ℕ
bad_ref = record file {
  test_cases =
      record sample {
        probes = record { op = "decode"; args = null ∷ []; refs = (0, 0) ∷ []; repeat = 1 } ∷ [];
      }
      ∷ [];
}

load-bad_ref : load read blank no_problem bad_ref ≡ none
unfolding load
load-bad_ref = refl

-- `toJSON` becomes `to_json`.
snake_case-to_json :
    snake_case none (116 ∷ 111 ∷ 74 ∷ 83 ∷ 79 ∷ 78 ∷ [])
    ≡ 116 ∷ 111 ∷ 95 ∷ 106 ∷ 115 ∷ 111 ∷ 110 ∷ []
unfolding snake_case
snake_case-to_json = refl
