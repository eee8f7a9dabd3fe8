-- ===== src/Harness/Nodes/Trees/Flatten.antt =====
-- `_build_tree` and `_flatten_tree` together.
use mathlib.Core.Option.{none-ne-some}
use shikomi.Prelude.{
  and_then, ℕ, zero, suc, ◌+◌, ◌*◌, ◌≡◌, refl, ap, ap₂, ◌∙◌, sym, subst, ◌≤◌, true, Option, none,
  some, List, [], ◌∷◌, ◌++◌, length, length-append, arith, Bool-cases, inl, inr, ==_refl,
}
use shikomi.Json.{Json, null}
use shikomi.Harness.Nodes.{Heap, cell, val_of, encoded, map_encoded}
use shikomi.Harness.Nodes.Trees.{
  left_side, right_side, listed, is_null, child, child_of, fill, build_tree, spread, trim,
  flatten_within, flatten_tree, max_tree_entries,
}
use shikomi.Harness.Nodes.Trees.Attach.{
  Rising, Rising-le, entry_value, entry_value-kept, child-snoc, val_of-snoc, get_elem?-none,
}
use shikomi.Harness.Nodes.Trees.Fill.{
  first_value, after, left_one, right_one, fill-round, right_one-IsRound, Bare, Bare-round,
  Downward, fill-IsFilled,
}
use shikomi.Harness.Nodes.Trees.Cycle.{tree_has_cycle-Downward}
use shikomi.Harness.Nodes.Trees.Entries.{
  nodes_of, nodes_of-append, complete, node_count, nulls, ones, length-listed, node_count-after,
  complete-after, pad, trim-append, values_in, values_in-append, complete-none,
}

module _ {N : Type 0} where
  -- What the queue gives in a heap: the values of its entries, then some values, then nulls.
  abbrev Spreads : Heap N → ℕ → List (Option ℕ) → List (Json N) → Type 0
  Spreads g left_over entries vs =
      (m : ℕ) × (spread g left_over entries ≡ encoded (values_in g entries ++ (vs ++ nulls m)))

  -- One node of the queue, whose children are at its end.
  spread-node :
      (g : Heap N) (left_over a : ℕ) (entries : List (Option ℕ)) (l r : Option ℕ)
      (vs : List (Json N))
      → child left_side g a ≡ l
      → child right_side g a ≡ r
      → entry_value g l ≡ first_value vs
      → entry_value g r ≡ first_value (after vs)
      → Spreads g left_over (entries ++ (l ∷ r ∷ [])) (after (after vs))
      → Spreads g (suc left_over) (some a ∷ entries) vs
  unfolding spread
  spread-node g left_over a entries l r vs cl cr vl vr (m, e) =
      let (k, padded) = pad vs m in
      (
        k,
        ap (map_encoded (λ ws. val_of g a ∷ ws))
              (ap₂ (λ x y. spread g left_over (entries ++ (x ∷ y ∷ []))) cl cr ∙ e)
            ∙ ap (λ ws. encoded (val_of g a ∷ ws))
                (values_in-append g entries l r (after (after vs) ++ nulls m)
                  ∙ ap (λ ws. values_in g entries ++ ws)
                      (ap₂ (λ x y. x ∷ y ∷ (after (after vs) ++ nulls m)) vl vr ∙ padded)),
      )

  size_of-round :
      (a : ℕ) (entries : List (Option ℕ)) (vs : List (Json N)) (h : Heap N)
      → length (nodes_of (entries ++ ((left_one a vs h).0 ∷ (right_one a vs h).0 ∷ [])))
        ≡ length (nodes_of entries) + ones (first_value vs) + ones (first_value (after vs))
  size_of-round a entries vs h =
      let lc = (left_one a vs h).0 in
      let rc = (right_one a vs h).0 in
      let shape = ap length (nodes_of-append entries lc rc) in
      let p = length-append (nodes_of entries ++ listed lc) (listed rc) in
      let q = length-append (nodes_of entries) (listed lc) in
      let x = length-listed left_side a (first_value vs) h in
      let y = length-listed right_side a (first_value (after vs)) (left_one a vs h).1 in
      omega (arith, shape, p, q, x, y)

  -- With enough entries left, the loop gives the values of its queue, then all values that the heap
  -- was filled with.
  spread-fill :
      (left_over : ℕ) (entries : List (Option ℕ)) (vs : List (Json N)) (h : Heap N) (lo : ℕ)
      → Rising lo (nodes_of entries) (length h)
      → Bare lo h
      → complete vs (2 * length (nodes_of entries)) ≡ true
      → length entries + 2 * length (nodes_of entries) + 2 * node_count vs ≤ left_over
      → Spreads (fill vs (nodes_of entries) h) left_over entries vs
  unfolding spread
  spread-fill left_over [] vs h lo rising bare full room =
      (0, ap (λ ws. encoded (ws ++ [])) (sym (complete-none vs full)))
  spread-fill zero (entry ∷ entries) vs h lo rising bare full room = absurd (omega (arith, room))
  spread-fill (suc left_over) (none ∷ entries) vs h lo rising bare full room =
      let (m, e) = spread-fill left_over entries vs h lo rising bare full (omega (arith, room)) in
      (m, ap (map_encoded (λ ws. null ∷ ws)) e)
  spread-fill (suc left_over) (some a ∷ entries) vs h lo (l, rising) bare full room =
      let r =
        right_one-IsRound a vs h (Rising-le (suc a) (nodes_of entries) (length h) rising)
          (λ s. bare s a l) in
      let lc = (left_one a vs h).0 in
      let rc = (right_one a vs h).0 in
      let h2 = (right_one a vs h).1 in
      let more = after (after vs) in
      let queue = entries ++ (lc ∷ rc ∷ []) in
      let shape = nodes_of-append entries lc rc in
      let g = fill more (nodes_of queue) h2 in
      let rising2 =
        subst (λ xs. Rising (suc a) xs (length h2)) (sym shape)
          (r.rising (suc a) (nodes_of entries) rising) in
      let bare2 = Bare-round lo a vs h l bare r in
      let f = fill-IsFilled more (nodes_of queue) (suc a) h2 rising2 bare2 in
      let size = size_of-round a entries vs h in
      let rest =
        spread-fill left_over queue more h2 (suc a) rising2 bare2
          (ap (λ n. complete more (2 * n)) size
            ∙ complete-after vs (length (nodes_of entries)) full)
          (let longer = length-append entries (lc ∷ rc ∷ []) in
            let count = node_count-after vs in omega (arith, room, size, longer, count)) in
      let same : fill vs (a ∷ nodes_of entries) h ≡ g =
        fill-round a (nodes_of entries) vs h ∙ ap (λ xs. fill more xs h2) (sym shape) in
      subst (λ g. Spreads g (suc left_over) (some a ∷ entries) vs) (sym same)
        (spread-node g left_over a entries lc rc vs
          (f.children left_side a (omega arith) ∙ r.left_child)
          (f.children right_side a (omega arith) ∙ r.right_child)
          (entry_value-kept h2 g lc r.left_inside f.values ∙ r.left_entry)
          (entry_value-kept h2 g rc r.right_inside f.values ∙ r.right_entry) rest)

  flatten_within-node :
      (limit : ℕ) (v : Json N) (vs : List (Json N)) (h : Heap N)
      → complete vs 2 ≡ true
      → 3 + 2 * node_count vs ≤ limit
      → flatten_within limit (fill vs (length h ∷ []) (h ++ (cell v ∷ []))) (some (length h))
        ≡ encoded (trim (v ∷ vs))
  unfolding flatten_within
  flatten_within-node limit v vs h full room =
      let root = length h in
      let start = h ++ (cell v ∷ []) in
      let longer = length-append h (cell v ∷ []) in
      let rising : Rising root (root ∷ []) (length start) = (omega arith, omega (arith, longer)) in
      let bare : Bare root start =
        λ s b l. child-snoc s h v b ∙ ap (λ o. and_then o (child_of s)) (get_elem?-none h b l) in
      let f = fill-IsFilled vs (root ∷ []) root start rising bare in
      let g = fill vs (root ∷ []) start in
      let down : Downward root start =
        λ s a b l e. absurd (none-ne-some b (sym (bare s a l) ∙ e)) in
      let search = tree_has_cycle-Downward g root root (f.downward root down) (omega arith) in
      let (m, e) =
        spread-fill limit (some root ∷ []) vs start root rising bare full (omega (arith, room)) in
      let first : val_of g root ≡ v =
        f.values root (omega (arith, longer)) ∙ val_of-snoc h v root ∙ rw (==_refl root) refl in
      rw search (
        ap (map_encoded trim) e
        ∙ ap (λ w. encoded (trim (w ∷ (vs ++ nulls m)))) first
        ∙ ap encoded (trim-append (v ∷ vs) m))

  -- Flattening the tree that `_build_tree` makes of a level order, in a heap with any other objects,
  -- gives back the level order without its trailing nulls, if the values fill the slots of a tree in
  -- order and the tree has no more entries than the limit.
  pub flatten_tree-build_tree :
      (vs : List (Json N)) (h : Heap N)
      → complete vs 1 ≡ true
      → 1 + 2 * node_count vs ≤ max_tree_entries
      → (let (root, g) = build_tree vs h in flatten_tree g root) ≡ encoded (trim vs)
  unfolding flatten_tree build_tree flatten_within
  flatten_tree-build_tree [] h full room = refl
  flatten_tree-build_tree (v ∷ vs) h full room = elim (Bool-cases (is_null v)) [
    | inl t ↦
        let none_left : complete vs 0 ≡ true = simp t at full in
        let empty = complete-none vs none_left in
        let gone : trim (v ∷ vs) ≡ [] = ap (λ ws. trim (v ∷ ws)) empty ∙ rw t refl in
        rw t (ap encoded (sym gone))
    | inr f ↦
        let open_slots : complete vs 2 ≡ true = simp f at full in
        let enough : 3 + 2 * node_count vs ≤ max_tree_entries = ground (arith, f, room) in
        simp f (flatten_within-node max_tree_entries v vs h open_slots enough)
  ]
