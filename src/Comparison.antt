-- ===== src/Comparison.antt =====
-- backend/app/comparison.py: a problem's `comparison` as the harness of one language gets it. `blank`
-- is `not code.strip()` of Python's text; `none` is a `ValueError`.
use Prim.Native.String.{String}
use shikomi.Prelude.{
  ◌≡◌, refl, Bool, false, Option, none, some, inl, inr, Bool-cases, if◌then◌else◌, arith, ◌∙◌, sym,
}
use shikomi.Prelude.Text.{str_eq, eq_iff}
use shikomi.Json.{Json, null, str, obj, Fields, end, field, get}
use shikomi.Verdict.{is_text}

module _ {N : Type 0} where
  -- `d[k] = v`
  unfoldable pub set : String → Json N → Fields N → Fields N
  set k v end = field k v end
  set k v (field j w fs) = if str_eq j k then field j v fs else field j w (set k v fs)

  -- `dict(comparison or {"mode": "exact"})`
  abbrev pub or_exact : Option (Fields N) → Fields N
  or_exact none = field "mode" (str "exact") end
  or_exact (some end) = field "mode" (str "exact") end
  or_exact (some (field k v fs)) = field k v fs

  abbrev pub codes_of : Option (Json N) → Option (Fields N)
  codes_of none = some end
  codes_of (some null) = some end
  codes_of (some (str s)) = some (field "python" (str s) end)
  codes_of (some (obj codes)) = some codes
  codes_of (some _) = none

  -- `validator_codes`
  unfoldable pub validator_codes : Fields N → Option (Fields N)
  validator_codes comparison = codes_of (get "validator_code" comparison)

  abbrev pub is_custom : Fields N → Bool
  is_custom comparison = is_text "custom_validator" (get "mode" comparison)

  module _ (blank : String → Bool) where
    abbrev pub when_code : Fields N → Option (Json N) → Option (Fields N)
    when_code comparison (some (str code)) =
        if blank code then none else some (set "validator_code" (str code) comparison)
    when_code comparison _ = none

    abbrev pub when_codes : Fields N → String → Option (Fields N) → Option (Fields N)
    when_codes comparison language none = none
    when_codes comparison language (some codes) = when_code comparison (get language codes)

    unfoldable pub for_language : Option (Fields N) → String → Option (Fields N)
    unfolding validator_codes set
    for_language given language =
        let comparison = or_exact given in
        if is_custom comparison
        then when_codes comparison language (validator_codes comparison)
        else some comparison

  pub get-set :
      (k j : String) (v : Json N) (fs : Fields N)
      → get j (set k v fs) ≡ (if str_eq k j then some v else get j fs)
  unfolding set
  get-set k j v end = refl
  get-set k j v (field i w fs) = elim (Bool-cases (str_eq i k)) [
    | inl e ↦
        rw (e, (eq_iff i k).0 e)
          (elim (Bool-cases (str_eq k j)) [ inl t ↦ simp t refl | inr f ↦ simp f refl ])
    | inr g ↦ rw g (elim (Bool-cases (str_eq i j)) [
      | inl t ↦
          let apart : str_eq k j ≡ false = elim (Bool-cases (str_eq k j)) [
            | inl u ↦
                absurd
                  (ground (arith, g, (eq_iff i k).1 ((eq_iff i j).0 t ∙ sym ((eq_iff k j).0 u))))
            | inr f ↦ f
          ] in
          simp (t, apart) refl
      | inr f ↦ simp f (get-set k j v fs)
    ])
  ]
