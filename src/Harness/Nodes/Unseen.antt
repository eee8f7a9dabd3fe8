-- ===== src/Harness/Nodes/Unseen.antt =====
-- The addresses that a search has not come to, which bound its steps.
use shikomi.Prelude.{
  ℕ, zero, suc, ◌+◌, ◌≡◌, refl, ap, ◌∙◌, sym, ◌≤◌, ◌<◌, ◌==◌, false, none, List, [], ◌∷◌, ◌++◌,
  length, get_elem?, if◌then◌else◌, arith, Bool-cases, inl, inr, ==_iff,
}
use shikomi.Services.{among}
use shikomi.Harness.Nodes.Walk.{among-snoc}

-- How many addresses below `n` have not been seen.
unfoldable pub unseen : ℕ → List ℕ → ℕ
unseen zero order = 0
unseen (suc n) order = (if among n order then 0 else 1) + unseen n order

pub unseen-snoc :
    (n a : ℕ) (order : List ℕ)
    → (unseen n (order ++ (a ∷ [])) ≤ unseen n order)
      × (a < n → among a order ≡ false → suc (unseen n (order ++ (a ∷ []))) ≤ unseen n order)
unfolding unseen
unseen-snoc zero a order = (omega arith, λ l g. absurd (omega arith))
unseen-snoc (suc n) a order =
    let (same, less) = unseen-snoc n a order in
    (
      ground (arith, among-snoc n a order, same),
      λ l g. elim (Bool-cases (a == n)) [
        | inl t ↦
            let q : a ≡ n = (==_iff a n).0 t in
            let u : among n order ≡ false = ap (λ k. among k order) (sym q) ∙ g in
            ground (arith, among-snoc n a order, same)
        | inr f ↦ let m : a < n = ground arith in ground (arith, among-snoc n a order, less m g)
      ],
    )

pub unseen-le : (n : ℕ) → unseen n [] ≤ n
unfolding unseen
unseen-le zero = omega arith
unseen-le (suc n) = omega (arith, unseen-le n)

pub get_elem?-past {ℓ} : {A : Type ℓ} (xs : List A) (i : ℕ) → length xs ≤ i → get_elem? xs i ≡ none
get_elem?-past [] i l = refl
get_elem?-past (x ∷ xs) zero l = absurd (omega (arith, l))
get_elem?-past (x ∷ xs) (suc i) l = get_elem?-past xs i (omega (arith, l))
