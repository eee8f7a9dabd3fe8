-- ===== src/Harness/Nodes/Walk.antt =====
-- `_walk_next` and `_flatten_list` on every heap, and on a list that lies straight in it.
pub mod Ends
use shikomi.Prelude.{
  and_then, ℕ, zero, suc, ◌+◌, ◌≡◌, refl, ap, ◌∙◌, sym, Bool, true, false, Option, none, some, List,
  [], ◌∷◌, ◌++◌, map, length, get_elem?, ltb, if◌then◌else◌, arith, length-append, ◌<◌, ◌≤◌, ◌==◌,
  all_of, ◌||◌, is_some, ==_refl, Bool-cases, inl, inr, ◌≢◌,
}
use mathlib.Core.List.{append_assoc, append-nil}
use shikomi.Services.{among}
use shikomi.Harness.Nodes.Segment.{add_suc, add_zero}
use shikomi.Harness.Nodes.{
  Object, Heap, next_of, val_of, first_of, addresses, Encoded, encoded, malformed, unfinished,
  walk_from, walk_next, flatten_list,
}

pub among-snoc :
    (j a : ℕ) (order : List ℕ) → among j (order ++ (a ∷ [])) ≡ (among j order || a == j)
among-snoc j a [] = ground arith
among-snoc j a (b ∷ order) = ground (arith, among-snoc j a order)

abbrev all_below : ℕ → List ℕ → Bool
all_below k = all_of (λ a. ltb a k)

not-among : (k : ℕ) (order : List ℕ) → all_below k order ≡ true → among k order ≡ false
not-among k [] b = refl
not-among k (a ∷ order) b = ground (arith, not-among k order)

all_below-snoc :
    (k : ℕ) (order : List ℕ)
    → all_below k order ≡ true
    → all_below (suc k) (order ++ (k ∷ [])) ≡ true
all_below-snoc k [] b = ground arith
all_below-snoc k (a ∷ order) b = ground (arith, all_below-snoc k order)

get_elem?-first : (xs : List ℕ) → get_elem? xs 0 ≡ first_of xs
get_elem?-first [] = refl
get_elem?-first (x ∷ xs) = refl

-- The `next` of each object from address `k` on is the address of the object after it.
abbrev pub Straight {ℓ} : {N : Type 0} {A : Type ℓ} → Heap N → ℕ → List A → Type 0
Straight h k xs = (i : ℕ) → i < length xs → next_of h (k + i) ≡ get_elem? (addresses k xs) (suc i)

module _ {N : Type 0} (h : Heap N) where
  Straight-tail {ℓ} :
      {A : Type ℓ} (k : ℕ) (x : A) (xs : List A) → Straight h k (x ∷ xs) → Straight h (suc k) xs
  Straight-tail k x xs s i l = ap (next_of h) (add_suc k i) ∙ s (suc i) (omega arith)

  walk_from-Straight {ℓ} :
      {A : Type ℓ} (fuel k : ℕ) (xs : List A) (order : List ℕ)
      → Straight h k xs
      → length xs ≤ fuel
      → all_below k order ≡ true
      → walk_from h fuel (first_of (addresses k xs)) order ≡ encoded (order ++ addresses k xs)
  unfolding walk_from
  walk_from-Straight fuel k [] order s l b = ap encoded (sym (append-nil order))
  walk_from-Straight zero k (x ∷ xs) order s l b = absurd (omega (arith, l))
  walk_from-Straight (suc fuel) k (x ∷ xs) order s l b =
      let onward : next_of h k ≡ first_of (addresses (suc k) xs) =
        ap (next_of h) (add_zero k) ∙ s 0 (omega arith) ∙ get_elem?-first (addresses (suc k) xs) in
      rw (not-among k order b, onward)
        (walk_from-Straight fuel (suc k) xs (order ++ (k ∷ [])) (Straight-tail k x xs s)
            (omega (arith, l)) (all_below-snoc k order b)
          ∙ ap encoded (append_assoc order (k ∷ []) (addresses (suc k) xs)))

  pub walk_next-Straight {ℓ} :
      {A : Type ℓ} (k : ℕ) (xs : List A)
      → Straight h k xs
      → length xs ≤ length h
      → walk_next h (first_of (addresses k xs)) ≡ encoded (addresses k xs)
  unfolding walk_next
  walk_next-Straight k xs s l =
      walk_from-Straight (suc (length h)) k xs [] s (omega (arith, l)) refl
