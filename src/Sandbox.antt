-- ===== src/Sandbox.antt =====
-- backend/app/sandbox.py: what a problem's check asks of each language's profile, and the Rust
-- method that an operation calls. The `Language` of backend/app/schemas/problem.py is one of four.
use Prim.Native.String.{String}
use shikomi.Prelude.{
  ℕ, ◌+◌, ◌==◌, leb, Bool, true, false, not, ◌&&◌, ◌||◌, Option, none, some, List, [], ◌∷◌, any_of,
  all_of, if◌then◌else◌,
}

pub data Language : Type 0 where
  python js rust mysql : Language

abbrev pub language_name : Language → String
language_name python = "python"
language_name js = "js"
language_name rust = "rust"
language_name mysql = "mysql"

-- The node codecs by name; `iterator` is for constructors only.
pub data NodeType : Type 0 where
  list_node tree_node list_nodes tree_nodes cyclic_list random_list graph iterator : NodeType

-- `integer_values` is whether a node's value must be an integer of 32 bits.
pub record SandboxProfile : Type 0 where
  pub startup_slack_ms : ℕ
  pub function_mode_only : Bool
  pub custom_validator : Bool
  pub min_memory_limit_mb : ℕ
  pub node_types : NodeType → Bool
  pub integer_values : Bool

-- PROFILES and `profile_for`
unfoldable pub profile_for : Language → SandboxProfile
profile_for python = record {
  startup_slack_ms = 0;
  function_mode_only = false;
  custom_validator = true;
  min_memory_limit_mb = 1;
  node_types = λ t. true;
  integer_values = false;
}
profile_for js = record {
  startup_slack_ms = 0;
  function_mode_only = true;
  custom_validator = false;
  min_memory_limit_mb = 1;
  node_types = λ t. false;
  integer_values = false;
}
profile_for rust = record {
  startup_slack_ms = 12000;
  function_mode_only = false;
  custom_validator = true;
  min_memory_limit_mb = 128;
  node_types = λ t. true;
  integer_values = true;
}
profile_for mysql = record {
  startup_slack_ms = 2000;
  function_mode_only = false;
  custom_validator = false;
  min_memory_limit_mb = 1;
  node_types = λ t. false;
  integer_values = false;
}

-- _RUST_KEYWORDS
abbrev rust_keywords : List String
rust_keywords =
    "as" ∷ "break" ∷ "const" ∷ "continue" ∷ "else" ∷ "enum" ∷ "extern" ∷ "false" ∷ "fn" ∷ "for"
    ∷ "if" ∷ "impl" ∷ "in" ∷ "let" ∷ "loop" ∷ "match" ∷ "mod" ∷ "move" ∷ "mut" ∷ "pub" ∷ "ref"
    ∷ "return" ∷ "static" ∷ "struct" ∷ "trait" ∷ "true" ∷ "type" ∷ "unsafe" ∷ "use" ∷ "where"
    ∷ "while" ∷ "async" ∷ "await" ∷ "dyn" ∷ "abstract" ∷ "become" ∷ "box" ∷ "do" ∷ "final" ∷ "macro"
    ∷ "override" ∷ "priv" ∷ "typeof" ∷ "unsized" ∷ "virtual" ∷ "yield" ∷ "try" ∷ "gen" ∷ []

-- The names that no method can have.
abbrev refused_names : List String
refused_names = "self" ∷ "super" ∷ "crate" ∷ "Self" ∷ "_" ∷ "new" ∷ []

abbrev pub same_chars : List ℕ → List ℕ → Bool
same_chars [] [] = true
same_chars (a ∷ xs) (b ∷ ys) = a == b && same_chars xs ys
same_chars _ _ = false

abbrev between : ℕ → ℕ → ℕ → Bool
between low high c = leb low c && leb c high

-- `isupper`, `islower`, `isdigit` and `lower` of an ASCII character
abbrev is_upper : ℕ → Bool
is_upper c = between 65 90 c

abbrev is_lower : ℕ → Bool
is_lower c = between 97 122 c

abbrev is_digit : ℕ → Bool
is_digit c = between 48 57 c

abbrev lowered : ℕ → ℕ
lowered c = if is_upper c then c + 32 else c

abbrev starts_name : ℕ → Bool
starts_name c = is_upper c || is_lower c || c == 95

-- `_IDENTIFIER.fullmatch`
abbrev is_identifier : List ℕ → Bool
is_identifier [] = false
is_identifier (c ∷ cs) = starts_name c && all_of (λ d. starts_name d || is_digit d) cs

abbrev next_is_lower : List ℕ → Bool
next_is_lower [] = false
next_is_lower (c ∷ cs) = is_lower c

-- Whether a word begins at a capital, after `prev` and before `rest`.
abbrev is_boundary : Option ℕ → List ℕ → Bool
is_boundary none rest = false
is_boundary (some prev) rest =
    is_lower prev || is_digit prev || (is_upper prev && next_is_lower rest)

-- `out and out[-1] != "_"`, of the last character of `out`
abbrev not_after_underscore : Option ℕ → Bool
not_after_underscore none = false
not_after_underscore (some c) = not (c == 95)

-- The loop of `rust_method_name`; the last character of `out` is the previous one in lower case.
unfoldable pub snake_case : Option ℕ → List ℕ → List ℕ
snake_case prev [] = []
snake_case prev (c ∷ cs) =
    let rest = lowered c ∷ snake_case (some c) cs in
    if is_upper c && is_boundary prev cs && not_after_underscore prev then 95 ∷ rest else rest

-- `rust_method_name`, on the code points of a text that `chars` gives; 114 and 35 are "r#".
unfoldable pub rust_method_name : (String → List ℕ) → String → Option (List ℕ)
unfolding snake_case
rust_method_name chars op =
    let name = snake_case none (chars op) in
    if not (is_identifier (chars op)) || any_of (λ n. same_chars (chars n) name) refused_names
    then none
    else if any_of (λ k. same_chars (chars k) name) rust_keywords
    then some (114 ∷ 35 ∷ name)
    else some name
