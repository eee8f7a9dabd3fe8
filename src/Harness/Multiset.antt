-- ===== src/Harness/Multiset.antt =====
-- Lists compared without their order, for any Boolean equivalence: by removing one list's items
-- from the other (the loop of `_multiset_equal`), and by counting (`Counter(a) == Counter(b)`).
use mathlib.Core.Bool.{false≢true}
use shikomi.Prelude.{
  ℕ, suc, ◌≡◌, refl, sym, ◌∙◌, ◌↔◌, ◌⊎◌, inl, inr, Bool, true, false, ◌&&◌, ◌==◌, Option, none,
  some, List, [], ◌∷◌, arith, Bool-cases, Option-cases, length, count_if, all_of, ==_iff,
  &&-eq-true,
}

pub record Equivalence {ℓ} {A : Type ℓ} (eq : A → A → Bool) : Type ℓ where
  pub eq_refl : (a : A) → eq a a ≡ true
  pub eq_sym : (a b : A) → eq a b ≡ eq b a
  pub eq_trans : (a b c : A) → eq a b ≡ true → eq b c ≡ true → eq a c ≡ true

abbrev pub keep_head {ℓ} : {A : Type ℓ} → A → Option (List A) → Option (List A)
keep_head c none = none
keep_head c (some ys) = some (c ∷ ys)

module _ {ℓ} {A : Type ℓ} (eq : A → A → Bool) where
  -- `del remaining[i]` at the first candidate that equals the item; `none` if there is none.
  unfoldable pub remove_first : A → List A → Option (List A)
  remove_first x [] = none
  remove_first x (c ∷ ys) = elim (eq c x) [
    | true ↦ some ys
    | false ↦ keep_head c (remove_first x ys)
  ]

  -- The loop over `a`: every item removes one from what remains of `b`.
  unfoldable pub remove_all : List A → List A → Bool
  remove_all [] ys = true
  remove_all (x ∷ xs) ys = elim (remove_first x ys) [ none ↦ false | some zs ↦ remove_all xs zs ]

  abbrev pub occurrences : A → List A → ℕ
  occurrences x = count_if (λ y. eq x y)

  -- `Counter.__eq__`: every item of either list occurs as often in both.
  unfoldable pub counters_equal : List A → List A → Bool
  counters_equal xs ys =
      all_of (λ e. occurrences e xs == occurrences e ys) xs
      && all_of (λ e. occurrences e xs == occurrences e ys) ys

module _ {ℓ} {A : Type ℓ} (eq : A → A → Bool) (h : Equivalence eq) where
  eq_congr : (x y z : A) → eq x y ≡ true → eq x z ≡ eq y z
  eq_congr x y z e = elim (Bool-cases (eq x z)) [
    | inl t ↦ t ∙ sym (h.eq_trans y x z (h.eq_sym y x ∙ e) t)
    | inr f ↦ elim (Bool-cases (eq y z)) [
      | inl t ↦ h.eq_trans x y z e t ∙ sym t
      | inr g ↦ f ∙ sym g
    ]
  ]

  occurrences_congr :
      (x y : A) (xs : List A) → eq x y ≡ true → occurrences eq x xs ≡ occurrences eq y xs
  occurrences_congr x y [] e = refl
  occurrences_congr x y (z ∷ xs) e = ground (arith, eq_congr x y z e, occurrences_congr x y xs e)

  occurrences-remove :
      (x z : A) (ys zs : List A)
      → remove_first eq x ys ≡ some zs
      → occurrences eq z ys ≡ occurrences eq z (x ∷ zs)
  unfolding remove_first
  occurrences-remove x z [] zs e = ground arith
  occurrences-remove x z (c ∷ ys) zs e = elim (Bool-cases (eq c x)) [
    | inl t ↦ ground (arith, eq_congr c x z t, h.eq_sym z c, h.eq_sym z x)
    | inr f ↦ elim (Option-cases (remove_first eq x ys)) [
      | inl n ↦ ground arith
      | inr (ws, s) ↦ ground (arith, occurrences-remove x z ys ws s)
    ]
  ]

  occurrences-remove_none :
      (x : A) (ys : List A) → remove_first eq x ys ≡ none → occurrences eq x ys ≡ 0
  unfolding remove_first
  occurrences-remove_none x [] e = refl
  occurrences-remove_none x (c ∷ ys) e = ground (arith, h.eq_sym x c, occurrences-remove_none x ys)

  length-remove :
      (x : A) (ys zs : List A) → remove_first eq x ys ≡ some zs → length ys ≡ suc (length zs)
  unfolding remove_first
  length-remove x [] zs e = ground arith
  length-remove x (c ∷ ys) zs e = elim (Option-cases (remove_first eq x ys)) [
    | inl n ↦ ground arith
    | inr (ws, s) ↦ ground (arith, length-remove x ys ws s)
  ]

  abbrev pub SameCounts : List A → List A → Type ℓ
  SameCounts xs ys = (z : A) → occurrences eq z xs ≡ occurrences eq z ys

  SameCounts-cons :
      (x : A) (xs ys zs : List A)
      → remove_first eq x ys ≡ some zs
      → SameCounts xs zs
      → SameCounts (x ∷ xs) ys
  SameCounts-cons x xs ys zs e s z = ground (arith, occurrences-remove x z ys zs e, s z)

  SameCounts-cons_inv :
      (x : A) (xs ys zs : List A)
      → remove_first eq x ys ≡ some zs
      → SameCounts (x ∷ xs) ys
      → SameCounts xs zs
  SameCounts-cons_inv x xs ys zs e s z = ground (arith, occurrences-remove x z ys zs e, s z)

  -- Removing succeeds for every item only if both lists hold the same items as often.
  remove_all-SameCounts :
      (xs ys : List A) → length xs ≡ length ys → remove_all eq xs ys ≡ true → SameCounts xs ys
  unfolding remove_all
  remove_all-SameCounts [] [] l e = λ z. refl
  remove_all-SameCounts [] (y ∷ ys) l e = absurd (omega arith)
  remove_all-SameCounts (x ∷ xs) ys l e = elim (Option-cases (remove_first eq x ys)) [
    | inl n ↦ absurd (ground arith)
    | inr (zs, s) ↦
        SameCounts-cons x xs ys zs s
          (remove_all-SameCounts xs zs (omega (arith, length-remove x ys zs s)) (ground arith))
  ]

  SameCounts-remove_all : (xs ys : List A) → SameCounts xs ys → remove_all eq xs ys ≡ true
  unfolding remove_all
  SameCounts-remove_all [] ys s = refl
  SameCounts-remove_all (x ∷ xs) ys s = elim (Option-cases (remove_first eq x ys)) [
    | inl n ↦ absurd (ground (arith, occurrences-remove_none x ys n, s x, h.eq_refl x))
    | inr (zs, e) ↦ ground (arith, SameCounts-remove_all xs zs (SameCounts-cons_inv x xs ys zs e s))
  ]

  SameCounts-all_of :
      (xs ys l : List A)
      → SameCounts xs ys
      → all_of (λ e. occurrences eq e xs == occurrences eq e ys) l ≡ true
  SameCounts-all_of xs ys [] s = refl
  SameCounts-all_of xs ys (x ∷ l) s =
      ground (
        arith,
        s x,
        ==_iff (occurrences eq x xs) (occurrences eq x ys),
        SameCounts-all_of xs ys l s,
      )

  -- What holds of the listed items holds of any item that equals one of them.
  all_of-counts :
      (xs ys l : List A) (z : A)
      → all_of (λ e. occurrences eq e xs == occurrences eq e ys) l ≡ true
      → (occurrences eq z l ≡ 0) ⊎ (occurrences eq z xs ≡ occurrences eq z ys)
  all_of-counts xs ys [] z a = inl refl
  all_of-counts xs ys (x ∷ l) z a = elim (Bool-cases (eq z x)) [
    | inl t ↦ inr (
        ground (
          arith,
          occurrences_congr z x xs t,
          occurrences_congr z x ys t,
          ==_iff (occurrences eq x xs) (occurrences eq x ys),
        ))
    | inr f ↦ ground (arith, all_of-counts xs ys l z)
  ]

  counters_equal-SameCounts : (xs ys : List A) → counters_equal eq xs ys ≡ true → SameCounts xs ys
  unfolding counters_equal
  counters_equal-SameCounts xs ys e z =
      let both : (all_of (λ c. occurrences eq c xs == occurrences eq c ys) xs ≡ true)
          × (all_of (λ c. occurrences eq c xs == occurrences eq c ys) ys ≡ true) =
        &&-eq-true _ _ e in
      ground (arith, all_of-counts xs ys xs z both.0, all_of-counts xs ys ys z both.1)

  SameCounts-counters_equal : (xs ys : List A) → SameCounts xs ys → counters_equal eq xs ys ≡ true
  unfolding counters_equal
  SameCounts-counters_equal xs ys s =
      ground (arith, SameCounts-all_of xs ys xs s, SameCounts-all_of xs ys ys s)

  pub remove_all_iff :
      (xs ys : List A) → length xs ≡ length ys → (remove_all eq xs ys ≡ true) ↔ SameCounts xs ys
  remove_all_iff xs ys l = (remove_all-SameCounts xs ys l, SameCounts-remove_all xs ys)

  pub counters_equal_iff : (xs ys : List A) → (counters_equal eq xs ys ≡ true) ↔ SameCounts xs ys
  counters_equal_iff xs ys = (counters_equal-SameCounts xs ys, SameCounts-counters_equal xs ys)

  -- The quick way and the slow way agree on lists of one length.
  pub counters_equal-remove_all :
      (xs ys : List A) → length xs ≡ length ys → counters_equal eq xs ys ≡ remove_all eq xs ys
  counters_equal-remove_all xs ys l = elim (Bool-cases (remove_all eq xs ys)) [
    | inl t ↦ SameCounts-counters_equal xs ys (remove_all-SameCounts xs ys l t) ∙ sym t
    | inr f ↦ elim (Bool-cases (counters_equal eq xs ys)) [
      | inl t ↦
          absurd
            (false≢true (sym f ∙ SameCounts-remove_all xs ys (counters_equal-SameCounts xs ys t)))
      | inr g ↦ g ∙ sym f
    ]
  ]
