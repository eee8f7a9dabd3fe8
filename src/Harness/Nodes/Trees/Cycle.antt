-- ===== src/Harness/Nodes/Trees/Cycle.antt =====
-- `_tree_has_cycle` ends on every heap, and finds none where children lie above their parents.
use shikomi.Prelude.{
  ◌⊎◌, ℕ, zero, suc, ◌+◌, ◌*◌, ◌≡◌, refl, ap, ◌∙◌, ◌==◌, ◌<◌, ◌≤◌, ◌||◌, Bool, true, false, Option,
  none, some, List, [], ◌∷◌, ◌++◌, length, ltb, ltb→lt, if◌then◌else◌, is_some, arith, Bool-cases,
  inl, inr, ==_iff,
}
use shikomi.Services.{among}
use shikomi.Harness.Nodes.{Heap}
use shikomi.Harness.Nodes.Unseen.{unseen, unseen-snoc, unseen-le, get_elem?-past}
use shikomi.Harness.Nodes.Walk.{among-snoc}
use shikomi.Harness.Nodes.Trees.{
  left_side, right_side, child, to_enter, discard, met, visit, tree_has_cycle,
}
use shikomi.Harness.Nodes.Trees.Fill.{Downward}

-- The nodes that the stack is to leave, and the steps that its entries take by themselves.
markers : List (ℕ × Bool) → List ℕ
markers [] = []
markers ((a, true) ∷ s) = a ∷ markers s
markers ((a, false) ∷ s) = markers s

weight : List (ℕ × Bool) → ℕ
weight [] = 0
weight ((a, true) ∷ s) = 1 + weight s
weight ((a, false) ∷ s) = 2 + weight s

weight-enter :
    (l r : Option ℕ) (s : List (ℕ × Bool)) → weight (to_enter l ++ to_enter r ++ s) ≤ 4 + weight s
unfolding weight
weight-enter none none s = omega arith
weight-enter none (some b) s = omega arith
weight-enter (some a) none s = omega arith
weight-enter (some a) (some b) s = omega arith

markers-enter :
    (l r : Option ℕ) (s : List (ℕ × Bool)) → markers (to_enter l ++ to_enter r ++ s) ≡ markers s
unfolding markers
markers-enter none none s = refl
markers-enter none (some b) s = refl
markers-enter (some a) none s = refl
markers-enter (some a) (some b) s = refl

among-discard :
    (m a : ℕ) (bs : List ℕ) → among m (discard a bs) ≡ (if a == m then false else among m bs)
among-discard m a [] = ground arith
among-discard m a (b ∷ bs) = ground (arith, among-discard m a bs)

not_ltb : (a n : ℕ) → ltb a n ≡ false → n ≤ a
not_ltb a n e = ground arith

met-is_some :
    (p q : Bool) (skip enter : Unit {0} → Option Bool)
    → (p ≡ true → is_some (skip tt) ≡ true)
    → (p ≡ false → q ≡ false → is_some (enter tt) ≡ true)
    → is_some (met p q skip enter) ≡ true
met-is_some true q skip enter a b = a refl
met-is_some false true skip enter a b = refl
met-is_some false false skip enter a b = b refl refl

abbrev is_cycle : Option Bool → Bool
is_cycle (some b) = b
is_cycle none = false

met-is_cycle :
    (p q : Bool) (skip enter : Unit {0} → Option Bool)
    → q ≡ false
    → is_cycle (skip tt) ≡ false
    → is_cycle (enter tt) ≡ false
    → is_cycle (met p q skip enter) ≡ false
met-is_cycle true q skip enter r a b = a
met-is_cycle false true skip enter r a b = r
met-is_cycle false false skip enter r a b = b

answer : (o : Option Bool) → is_some o ≡ true → is_cycle o ≡ false → o ≡ some false
answer none s c = absurd (ground (arith, s))
answer (some b) s c = ap some c

over :
    (a : ℕ) (s : List (ℕ × Bool)) (b : ℕ)
    → ((m : ℕ) → among m (markers s) ≡ true → m < a)
    → a < b
    → (m : ℕ) → among m (markers ((a, true) ∷ s)) ≡ true
    → m < b
unfolding markers
over a s b above l m e = elim (Bool-cases (a == m)) [
  | inl t ↦ let same = (==_iff a m).0 t in omega (arith, same, l)
  | inr f ↦
      let deep : among m (markers s) ≡ true = ground arith in
      let m_le = above m deep in omega (arith, m_le, l)
]

-- What the stack is to enter lies above `k` and above all that it is to leave later.
Ordered : ℕ → List (ℕ × Bool) → Type 0
Ordered k [] = Unit
Ordered k ((a, true) ∷ s) = Ordered k s
Ordered k ((a, false) ∷ s) = (k ≤ a) × ((m : ℕ) → among m (markers s) ≡ true → m < a) × Ordered k s

Ordered-enter :
    (k a : ℕ) (l r : Option ℕ) (s : List (ℕ × Bool))
    → k ≤ a
    → ((m : ℕ) → among m (markers s) ≡ true → m < a)
    → ((b : ℕ) → l ≡ some b → a < b)
    → ((b : ℕ) → r ≡ some b → a < b)
    → Ordered k s
    → Ordered k (to_enter l ++ to_enter r ++ ((a, true) ∷ s))
unfolding Ordered markers
Ordered-enter k a none none s le above dl dr o = o
Ordered-enter k a none (some c) s le above dl dr o =
    (omega (arith, le, dr c refl), over a s c above (dr c refl), o)
Ordered-enter k a (some b) none s le above dl dr o =
    (omega (arith, le, dl b refl), over a s b above (dl b refl), o)
Ordered-enter k a (some b) (some c) s le above dl dr o = (
  omega (arith, le, dl b refl),
  over a s b above (dl b refl),
  (omega (arith, le, dr c refl), over a s c above (dr c refl), o),
)

module _ {N : Type 0} (h : Heap N) where
  -- Every node that has been entered is on the path or finished.
  abbrev Covered : List ℕ → List ℕ → List ℕ → Type 0
  Covered entered on fin = (m : ℕ) → among m entered ≡ true → (among m on || among m fin) ≡ true

  visit-is_some :
      (fuel : ℕ) (stack : List (ℕ × Bool)) (on fin entered : List ℕ)
      → Covered entered on fin
      → weight stack + 4 * unseen (length h) entered ≤ fuel
      → is_some (visit h fuel stack on fin) ≡ true
  unfolding visit weight
  visit-is_some fuel [] on fin entered cov l = refl
  visit-is_some zero ((a, true) ∷ s) on fin entered cov l = absurd (omega (arith, l))
  visit-is_some zero ((a, false) ∷ s) on fin entered cov l = absurd (omega (arith, l))
  visit-is_some (suc fuel) ((a, true) ∷ s) on fin entered cov l =
      visit-is_some fuel s (discard a on) (a ∷ fin) entered
        (λ m e. ground (arith, cov m e, among-discard m a on)) (omega (arith, l))
  visit-is_some (suc fuel) ((a, false) ∷ s) on fin entered cov l =
      met-is_some (among a fin) (among a on) _ _
        (λ t. visit-is_some fuel s on fin entered cov (omega (arith, l)))
        (λ f g.
          visit-is_some fuel
            (to_enter (child left_side h a) ++ to_enter (child right_side h a) ++ ((a, true) ∷ s))
            (a ∷ on) fin (entered ++ (a ∷ []))
            (λ m e. ground (arith, cov m, among-snoc m a entered)) (bound f g))
    where
      bound :
          among a fin ≡ false
          → among a on ≡ false
          → weight (
                to_enter (child left_side h a)
                ++ to_enter (child right_side h a)
                ++ ((a, true) ∷ s))
              + 4 * unseen (length h) (entered ++ (a ∷ []))
            ≤ fuel
      bound f g = elim (Bool-cases (ltb a (length h))) [
        | inl t ↦
            let new : among a entered ≡ false = ground (arith, cov a, f, g) in
            let fewer = (unseen-snoc (length h) a entered).1 (ltb→lt a (length h) t) new in
            let more = weight-enter (child left_side h a) (child right_side h a) ((a, true) ∷ s) in
            omega (arith, l, fewer, more)
        | inr p ↦
            let past = get_elem?-past h a (not_ltb a (length h) p) in
            let same = (unseen-snoc (length h) a entered).0 in rw past (omega (arith, l, same))
      ]

  visit-Ordered :
      (k fuel : ℕ) (stack : List (ℕ × Bool)) (on fin : List ℕ)
      → Downward k h
      → Ordered k stack
      → ((m : ℕ) → among m on ≡ true → among m (markers stack) ≡ true)
      → is_cycle (visit h fuel stack on fin) ≡ false
  unfolding visit Ordered markers
  visit-Ordered k fuel [] on fin down o path = refl
  visit-Ordered k zero (entry ∷ s) on fin down o path = refl
  visit-Ordered k (suc fuel) ((a, true) ∷ s) on fin down o path =
      visit-Ordered k fuel s (discard a on) (a ∷ fin) down o
        (λ m e. ground (arith, path m, among-discard m a on))
  visit-Ordered k (suc fuel) ((a, false) ∷ s) on fin down (le, above, o) path =
      let deeper =
        to_enter (child left_side h a) ++ to_enter (child right_side h a) ++ ((a, true) ∷ s) in
      met-is_cycle (among a fin) (among a on) _ _ (off_path (Bool-cases (among a on)))
        (visit-Ordered k fuel s on fin down o path)
        (visit-Ordered k fuel deeper (a ∷ on) fin down
          (Ordered-enter k a (child left_side h a) (child right_side h a) s le above
            (λ b e. down left_side a b le e) (λ b e. down right_side a b le e) o)
          (λ m e.
            ap (among m)
              (markers-enter (child left_side h a) (child right_side h a) ((a, true) ∷ s))
            ∙ ground (arith, path m)))
    where
      off_path : (among a on ≡ true) ⊎ (among a on ≡ false) → among a on ≡ false
      off_path (inr f) = f
      off_path (inl t) = let self = above a (path a t) in absurd (omega (arith, self))

  -- The search from a node ends without a cycle where children lie above their parents.
  pub tree_has_cycle-Downward :
      (k root : ℕ) → Downward k h → k ≤ root → tree_has_cycle h root ≡ some false
  unfolding tree_has_cycle weight Ordered markers
  tree_has_cycle-Downward k root down le =
      answer (visit h (2 + 4 * length h) ((root, false) ∷ []) [] [])
        (visit-is_some (2 + 4 * length h) ((root, false) ∷ []) [] [] [] (λ m e. e)
          (let fits = unseen-le (length h) in omega (arith, fits)))
        (visit-Ordered k (2 + 4 * length h) ((root, false) ∷ []) [] [] down
          (le, (λ m e. absurd (ground (arith, e))), tt) (λ m e. e))
