-- ===== src/Harness/Nodes/Trees/Entries.antt =====
-- The entries of the queue of `_flatten_tree`, and how the values fill the slots of a tree.
use shikomi.Prelude.{
  ℕ, zero, suc, ◌+◌, ◌*◌, ◌≡◌, refl, ap, ◌∙◌, subst, Bool, true, false, Option, none, some, List,
  [], ◌∷◌, ◌++◌, map, length, if◌then◌else◌, arith, Bool-cases, inl, inr,
}
use shikomi.Json.{Json, null}
use shikomi.Harness.Nodes.{Heap}
use shikomi.Harness.Nodes.Trees.{Side, listed, is_null, attach, trim}
use shikomi.Harness.Nodes.Trees.Attach.{entry_value}
use shikomi.Harness.Nodes.Trees.Fill.{first_value, after}

abbrev pub nodes_of : List (Option ℕ) → List ℕ
nodes_of [] = []
nodes_of (none ∷ entries) = nodes_of entries
nodes_of (some a ∷ entries) = a ∷ nodes_of entries

pub nodes_of-append :
    (entries : List (Option ℕ)) (l r : Option ℕ)
    → nodes_of (entries ++ (l ∷ r ∷ [])) ≡ nodes_of entries ++ listed l ++ listed r
nodes_of-append [] none none = refl
nodes_of-append [] none (some b) = refl
nodes_of-append [] (some a) none = refl
nodes_of-append [] (some a) (some b) = refl
nodes_of-append (none ∷ entries) l r = nodes_of-append entries l r
nodes_of-append (some a ∷ entries) l r = ap (λ xs. a ∷ xs) (nodes_of-append entries l r)

module _ {N : Type 0} where
  -- The values fill child slots in order, `slots` of which are open: each takes one, and a node opens
  -- two. No value comes after the last slot.
  abbrev pub complete : List (Json N) → ℕ → Bool
  complete [] slots = true
  complete (v ∷ vs) zero = false
  complete (v ∷ vs) (suc slots) = complete vs (if is_null v then slots else slots + 2)

  -- How many nodes the values stand for.
  abbrev pub node_count : List (Json N) → ℕ
  node_count [] = 0
  node_count (v ∷ vs) = (if is_null v then 0 else 1) + node_count vs

  abbrev pub nulls : ℕ → List (Json N)
  nulls zero = []
  nulls (suc m) = null ∷ nulls m

  abbrev pub ones : Json N → ℕ
  ones v = if is_null v then 0 else 1

  pub length-listed :
      (side : Side) (a : ℕ) (v : Json N) (h : Heap N)
      → length (listed (attach side a v h).0) ≡ ones v
  length-listed side a v h = elim (Bool-cases (is_null v)) [
    | inl t ↦ simp t refl
    | inr f ↦ simp f refl
  ]

  pub node_count-after :
      (vs : List (Json N))
      → node_count vs
        ≡ ones (first_value vs) + ones (first_value (after vs)) + node_count (after (after vs))
  node_count-after [] = omega arith
  node_count-after (v ∷ []) = omega arith
  node_count-after (v ∷ w ∷ vs) = omega arith

  complete-cons :
      (w : Json N) (vs : List (Json N)) (slots t : ℕ)
      → slots ≡ suc t
      → complete (w ∷ vs) slots ≡ true
      → complete vs (t + 2 * ones w) ≡ true
  complete-cons w vs slots t e c =
      let taken : complete vs (if is_null w then t else t + 2) ≡ true =
        subst (λ s. complete (w ∷ vs) s ≡ true) e c in
      elim (Bool-cases (is_null w)) [
        | inl n ↦ ap (complete vs) (ground (arith, n)) ∙ taken
        | inr f ↦ ap (complete vs) (ground (arith, f)) ∙ taken
      ]

  pub complete-after :
      (vs : List (Json N)) (n : ℕ)
      → complete vs (2 * suc n) ≡ true
      → complete
          (after (after vs))
          (2 * (n + ones (first_value vs) + ones (first_value (after vs))))
        ≡ true
  complete-after [] n e = refl
  complete-after (v ∷ []) n e = refl
  complete-after (v ∷ w ∷ vs) n e =
      let one = complete-cons v (w ∷ vs) (2 * suc n) (2 * n + 1) (omega arith) e in
      let two =
        complete-cons w vs (2 * n + 1 + 2 * ones v) (2 * n + 2 * ones v) (omega arith) one in
      ap (complete vs) (omega arith) ∙ two

  -- Two values and what follows, with `None` past the end.
  pub pad :
      (vs : List (Json N)) (m : ℕ)
      → (k : ℕ) × (first_value vs ∷ first_value (after vs) ∷ (after (after vs) ++ nulls m)
          ≡ vs ++ nulls k)
  pad [] m = (suc (suc m), refl)
  pad (v ∷ []) m = (suc m, refl)
  pad (v ∷ w ∷ vs) m = (m, refl)

  trim-nulls : (m : ℕ) → trim (nulls m) ≡ []
  trim-nulls zero = refl
  trim-nulls (suc m) = rw (trim-nulls m) refl

  pub trim-append : (vs : List (Json N)) (m : ℕ) → trim (vs ++ nulls m) ≡ trim vs
  trim-append [] m = trim-nulls m
  trim-append (v ∷ vs) m = rw (trim-append vs m) refl

  abbrev pub values_in : Heap N → List (Option ℕ) → List (Json N)
  values_in g = map (entry_value g)

  pub values_in-append :
      (g : Heap N) (entries : List (Option ℕ)) (l r : Option ℕ) (vs : List (Json N))
      → values_in g (entries ++ (l ∷ r ∷ [])) ++ vs
        ≡ values_in g entries ++ (entry_value g l ∷ entry_value g r ∷ vs)
  values_in-append g [] l r vs = refl
  values_in-append g (e ∷ entries) l r vs =
      ap (λ xs. entry_value g e ∷ xs) (values_in-append g entries l r vs)

  pub complete-none : (vs : List (Json N)) → complete vs 0 ≡ true → vs ≡ []
  complete-none [] e = refl
  complete-none (v ∷ vs) e = absurd (ground (arith, e))
