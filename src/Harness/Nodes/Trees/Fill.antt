-- ===== src/Harness/Nodes/Trees/Fill.antt =====
-- What `_build_tree` leaves unchanged, and the shape of what it makes.
use shikomi.Prelude.{
  Bool-cases, inl, inr, ==_iff, ℕ, suc, ◌≡◌, refl, ◌∙◌, sym, ◌==◌, ◌<◌, ◌≤◌, false, Option, none,
  some, List, [], ◌∷◌, ◌++◌, length, arith, subst,
}
use shikomi.Json.{Json, null}
use shikomi.Harness.Nodes.{Heap, val_of}
use shikomi.Harness.Nodes.Trees.{Side, left_side, right_side, listed, child, attach, fill}
use shikomi.Harness.Nodes.Trees.Attach.{
  Rising, Rising-le, attach-IsAttached, entry_value, entry_value-kept,
}

module _ {N : Type 0} where
  -- The first and the second value, `None` past the end, and the values after them.
  abbrev pub first_value : List (Json N) → Json N
  first_value [] = null
  first_value (v ∷ vs) = v

  abbrev pub after : List (Json N) → List (Json N)
  after [] = []
  after (v ∷ vs) = vs

  module _ (a : ℕ) (vs : List (Json N)) (h : Heap N) where
    abbrev pub left_one : Option ℕ × Heap N
    left_one = attach left_side a (first_value vs) h

    abbrev pub right_one : Option ℕ × Heap N
    right_one = attach right_side a (first_value (after vs)) left_one.1

  -- One round of the loop, whether or not the values reach.
  pub fill-round :
      (a : ℕ) (queue : List ℕ) (vs : List (Json N)) (h : Heap N)
      → fill vs (a ∷ queue) h
        ≡ fill
            (after (after vs))
            (queue ++ listed (left_one a vs h).0 ++ listed (right_one a vs h).0)
            (right_one a vs h).1
  unfolding fill
  fill-round a queue [] h = refl
  fill-round a queue (v ∷ []) h = refl
  fill-round a queue (v ∷ w ∷ vs) h = refl

  -- Both children of one node.
  pub record IsRound (a : ℕ) (vs : List (Json N)) (h : Heap N) : Type 0 where
    pub grows : length h ≤ length (right_one a vs h).1
    pub left_child : child left_side (right_one a vs h).1 a ≡ (left_one a vs h).0
    pub right_child : child right_side (right_one a vs h).1 a ≡ (right_one a vs h).0
    pub rest : (s : Side) (b : ℕ) → (a == b) ≡ false → child s (right_one a vs h).1 b ≡ child s h b
    pub values : (b : ℕ) → b < length h → val_of (right_one a vs h).1 b ≡ val_of h b
    pub left_entry : entry_value (right_one a vs h).1 (left_one a vs h).0 ≡ first_value vs
    pub right_entry : entry_value (right_one a vs h).1 (right_one a vs h).0 ≡ first_value (after vs)
    pub left_below : (b : ℕ) → (left_one a vs h).0 ≡ some b → a < b
    pub right_below : (b : ℕ) → (right_one a vs h).0 ≡ some b → a < b
    pub left_inside : (b : ℕ) → (left_one a vs h).0 ≡ some b → b < length (right_one a vs h).1
    pub right_inside : (b : ℕ) → (right_one a vs h).0 ≡ some b → b < length (right_one a vs h).1
    pub rising :
        (lo : ℕ) (xs : List ℕ)
        → Rising lo xs (length h)
        → Rising lo
            (xs ++ listed (left_one a vs h).0 ++ listed (right_one a vs h).0)
            (length (right_one a vs h).1)

  pub right_one-IsRound :
      (a : ℕ) (vs : List (Json N)) (h : Heap N)
      → a < length h
      → ((s : Side) → child s h a ≡ none)
      → IsRound a vs h
  right_one-IsRound a vs h l bare =
      let one = attach-IsAttached left_side a (first_value vs) h l in
      let room : a < length (left_one a vs h).1 = omega (arith, one.grows, l) in
      let two = attach-IsAttached right_side a (first_value (after vs)) (left_one a vs h).1 room in
      record {
        grows = omega (arith, one.grows, two.grows);
        left_child = two.other left_side refl ∙ one.own (bare left_side);
        right_child = two.own (one.other right_side refl ∙ bare right_side);
        rest = λ s b d. two.rest s b d ∙ one.rest s b d;
        values = λ b m. two.values b (omega (arith, one.grows, m)) ∙ one.values b m;
        left_entry =
            entry_value-kept (left_one a vs h).1 (right_one a vs h).1 (left_one a vs h).0 one.inside
              two.values
            ∙ one.entry;
        right_entry = two.entry;
        left_below = one.below;
        right_below = two.below;
        left_inside = λ b e. let m = one.inside b e in omega (arith, m, two.grows);
        right_inside = two.inside;
        rising = λ lo xs r. two.rising lo (xs ++ listed (left_one a vs h).0) (one.rising lo xs r);
      }

  -- No object from `lo` on has a child.
  abbrev pub Bare : ℕ → Heap N → Type 0
  Bare lo h = (s : Side) (b : ℕ) → lo ≤ b → child s h b ≡ none

  -- From `lo` on, children lie at higher addresses than their parents.
  abbrev pub Downward : ℕ → Heap N → Type 0
  Downward lo h = (s : Side) (a b : ℕ) → lo ≤ a → child s h a ≡ some b → a < b

  pub Bare-round :
      (lo a : ℕ) (vs : List (Json N)) (h : Heap N)
      → lo ≤ a
      → Bare lo h
      → IsRound a vs h
      → Bare (suc a) (right_one a vs h).1
  Bare-round lo a vs h l bare r s b m =
      let apart : (a == b) ≡ false = ground (arith, m) in
      r.rest s b apart ∙ bare s b (omega (arith, l, m))

  Downward-round :
      (lo a : ℕ) (vs : List (Json N)) (h : Heap N)
      → IsRound a vs h
      → Downward lo h
      → Downward lo (right_one a vs h).1
  Downward-round lo a vs h r down s x b m e = elim (Bool-cases (a == x)) [
    | inr f ↦ down s x b m (sym (r.rest s x f) ∙ e)
    | inl t ↦
        let same : a ≡ x = (==_iff a x).0 t in
        own s (subst (λ x. child s (right_one a vs h).1 x ≡ some b) (sym same) e) same
  ]
    where
      own : (s : Side) → child s (right_one a vs h).1 a ≡ some b → a ≡ x → x < b
      own left_side e q = let m = r.left_below b (sym r.left_child ∙ e) in omega (arith, m, q)
      own right_side e q = let m = r.right_below b (sym r.right_child ∙ e) in omega (arith, m, q)

  -- What the loop keeps of a heap, below the nodes it still has to fill.
  pub record IsFilled (lo : ℕ) (h g : Heap N) : Type 0 where
    pub children : (s : Side) (b : ℕ) → b < lo → child s g b ≡ child s h b
    pub values : (b : ℕ) → b < length h → val_of g b ≡ val_of h b
    pub downward : (k : ℕ) → Downward k h → Downward k g

  IsFilled-refl : (lo : ℕ) (h : Heap N) → IsFilled lo h h
  IsFilled-refl lo h = record {
    children = λ s b l. refl;
    values = λ b l. refl;
    downward = λ k d. d;
  }

  IsFilled-round :
      (lo a : ℕ) (vs : List (Json N)) (h g : Heap N)
      → lo ≤ a
      → IsRound a vs h
      → IsFilled (suc a) (right_one a vs h).1 g
      → IsFilled lo h g
  IsFilled-round lo a vs h g l r f = record {
    children = λ s b m.
        let apart : (a == b) ≡ false = ground (arith, l, m) in
        f.children s b (omega (arith, l, m)) ∙ r.rest s b apart;
    values = λ b m. f.values b (omega (arith, r.grows, m)) ∙ r.values b m;
    downward = λ k d. f.downward k (Downward-round k a vs h r d);
  }

  pub fill-IsFilled :
      (vs : List (Json N)) (queue : List ℕ) (lo : ℕ) (h : Heap N)
      → Rising lo queue (length h)
      → Bare lo h
      → IsFilled lo h (fill vs queue h)
  unfolding fill
  fill-IsFilled [] queue lo h rising bare = IsFilled-refl lo h
  fill-IsFilled (v ∷ []) [] lo h rising bare = IsFilled-refl lo h
  fill-IsFilled (v ∷ w ∷ vs) [] lo h rising bare = IsFilled-refl lo h
  fill-IsFilled (v ∷ []) (a ∷ queue) lo h (l, rising) bare =
      let r =
        right_one-IsRound a (v ∷ []) h (Rising-le (suc a) queue (length h) rising)
          (λ s. bare s a l) in
      IsFilled-round lo a (v ∷ []) h (right_one a (v ∷ []) h).1 l r
        (IsFilled-refl (suc a) (right_one a (v ∷ []) h).1)
  fill-IsFilled (v ∷ w ∷ vs) (a ∷ queue) lo h (l, rising) bare =
      let all = v ∷ w ∷ vs in
      let r =
        right_one-IsRound a all h (Rising-le (suc a) queue (length h) rising) (λ s. bare s a l) in
      let next = queue ++ listed (left_one a all h).0 ++ listed (right_one a all h).0 in
      IsFilled-round lo a all h (fill vs next (right_one a all h).1) l r (
        fill-IsFilled vs next (suc a) (right_one a all h).1 (r.rising (suc a) queue rising)
          (Bare-round lo a all h l bare r))
