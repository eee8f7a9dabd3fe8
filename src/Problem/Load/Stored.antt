-- ===== src/Problem/Load/Stored.antt =====
-- The comparison that a load stores (`_custom_validator_for_every_language`).
use Prim.Native.String.{String}
use shikomi.Prelude.{
  ◌⊎◌, subst, ◌≡◌, refl, ap, ◌∙◌, sym, Bool, true, false, Option, none, some, List, if◌then◌else◌,
  and_then, Bool-cases, inl, inr, arith,
}
use mathlib.Core.Option.{none-ne-some, some-injective}
use shikomi.Prelude.Text.{str_eq, eq_refl}
use shikomi.Json.{Json, obj, Fields, end, field, get}
use shikomi.Comparison.{set, validator_codes, is_custom, codes_of, or_exact, get-set}
use shikomi.Verdict.{is_text}
use shikomi.Problem.{LanguageVariant, stored_comparison, codes_ok, with_codes}

-- What a chain of two steps gave.
pub and_then-some {ℓ ℓ'} :
    {A : Type ℓ} {B : Type ℓ'} (o : Option A) (f : A → Option B) (b : B)
    → and_then o f ≡ some b
    → (a : A) × (o ≡ some a) × (f a ≡ some b)
and_then-some none f b e = absurd (none-ne-some b e)
and_then-some (some a) f b e = (a, refl, e)

pub if-some {ℓ} :
    {A : Type ℓ} (c : Bool) (a b : A) → (if c then some a else none) ≡ some b → (c ≡ true) × (a ≡ b)
if-some true a b e = (refl, some-injective a b e)
if-some false a b e = absurd (none-ne-some b e)

module _ {N : Type 0} where
  set-set : (k : String) (v : Json N) (fs : Fields N) → set k v (set k v fs) ≡ set k v fs
  unfolding set
  set-set k v end = rw (eq_refl k) refl
  set-set k v (field j w fs) = elim (Bool-cases (str_eq j k)) [
    | inl t ↦ simp t refl
    | inr f ↦ simp f (ap (field j w) (set-set k v fs))
  ]

  pub or_exact-custom : (c : Fields N) → is_custom c ≡ true → or_exact (some c) ≡ c
  or_exact-custom end t = absurd (ground arith)
  or_exact-custom (field k v fs) t = refl

  module _ (blank : String → Bool) (call_problem : Option (Json N) → Bool)
      (offered : List LanguageVariant) where
    -- A comparison that is not a custom validator is kept; in one that is, the codes are replaced
    -- by the map of them, which passes the checks.
    unfoldable pub Stored : Fields N → Fields N → Type 0
    Stored c d =
        ((is_custom c ≡ false) × (c ≡ d))
        ⊎ ((is_custom c ≡ true)
            × (code : Fields N) × (validator_codes c ≡ some code)
            × (codes_ok blank call_problem offered code ≡ true)
            × (set "validator_code" (obj code) c ≡ d))

    pub stored_comparison-Stored :
        (c d : Fields N) → stored_comparison blank call_problem offered c ≡ some d → Stored c d
    unfolding stored_comparison Stored
    stored_comparison-Stored c d e = elim (Bool-cases (is_custom c)) [
      | inr f ↦ inl (f, some-injective c d (simp f at e))
      | inl t ↦
          let (code, q, ok, same) = found (validator_codes c) refl (simp t at e) in
          inr (t, code, q, ok, same)
    ]
      where
        found :
            (o : Option (Fields N))
            → validator_codes c ≡ o
            → with_codes blank call_problem offered c o ≡ some d
            → (code : Fields N) × (validator_codes c ≡ some code)
              × (codes_ok blank call_problem offered code ≡ true)
              × (set "validator_code" (obj code) c ≡ d)
        found none q h = absurd (none-ne-some d h)
        found (some code) q h =
            let (ok, same) =
              if-some (codes_ok blank call_problem offered code) (set "validator_code" (obj code) c)
                d h in
            (code, q, ok, same)

    -- The rewritten comparison has the mode of the given one.
    pub mode-Stored : (c d : Fields N) → Stored c d → get "mode" d ≡ get "mode" c
    unfolding Stored
    mode-Stored c d (inl (f, same)) = ap (get "mode") (sym same)
    mode-Stored c d (inr (t, code, known, ok, same)) =
        ap (get "mode") (sym same) ∙ get-set "validator_code" "mode" (obj code) c

    pub validator_codes-set :
        (c code : Fields N) → validator_codes (set "validator_code" (obj code) c) ≡ some code
    unfolding validator_codes
    validator_codes-set c code =
        ap codes_of (get-set "validator_code" "validator_code" (obj code) c)

    pub stored_comparison-stable :
        (c d : Fields N) → Stored c d → stored_comparison blank call_problem offered d ≡ some d
    unfolding stored_comparison Stored
    stored_comparison-stable c d (inl (f, same)) =
        subst (λ d. stored_comparison blank call_problem offered d ≡ some d) same (rw f refl)
    stored_comparison-stable c d (inr (t, code, known, ok, same)) =
        let stored = set "validator_code" (obj code) c in
        let custom : is_custom stored ≡ true =
          ap (is_text "custom_validator") (get-set "validator_code" "mode" (obj code) c) ∙ t in
        subst (λ d. stored_comparison blank call_problem offered d ≡ some d) same
          (ap
              (λ b.
                if b
                then with_codes blank call_problem offered stored (validator_codes stored)
                else some stored)
              custom
            ∙ ap (with_codes blank call_problem offered stored) (validator_codes-set c code)
            ∙ ap (λ b. if b then some (set "validator_code" (obj code) stored) else none) ok
            ∙ ap some (set-set "validator_code" (obj code) c))
