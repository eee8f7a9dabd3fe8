-- ===== src/Harness/Nodes/Random.antt =====
-- `_build_random_list` and `_encode_random_list` together.
use shikomi.Prelude.{
  and_then, inl, inr, Option-cases, ℕ, suc, ◌+◌, ◌≡◌, refl, ap, ap₂, ◌∙◌, sym, true, Option, none,
  some, List, ◌++◌, map, length, get_elem?, arith, length-append, length-map, ◌≤◌, all_of, ltb→lt,
}
use shikomi.Harness.Nodes.{
  Object, Heap, cell, Row, value_of, row_of, in_range, link_at, aim_at, for_each, val_or_null,
  first_of, addresses, index_from, encoded, build_random_list, encode_random_list,
}
use shikomi.Harness.Nodes.Segment.{
  map_from, map-addresses, get_elem?-append, get_elem?-map_from_zero, get_elem?-map, get_elem?-some,
  all_of-get_elem?, get_elem?-addresses, index_from-addresses, for_each-addresses, length-map_from,
  zero_add,
}
use shikomi.Harness.Nodes.Walk.{Straight, walk_next-Straight}

module _ {N : Type 0} (nodes : List ℕ) (i : ℕ) (o : Object N) where
  next-link_at : o.next ≡ none → (link_at nodes i o).next ≡ get_elem? nodes (suc i)
  next-link_at q = elim (Option-cases (get_elem? nodes (suc i))) [
    | inl e ↦ simp e q
    | inr (a, e) ↦ simp e refl
  ]

  others-link_at : ((link_at nodes i o).random ≡ o.random) × ((link_at nodes i o).val ≡ o.val)
  others-link_at = elim (Option-cases (get_elem? nodes (suc i))) [
    | inl e ↦ simp e (refl, refl)
    | inr (a, e) ↦ simp e (refl, refl)
  ]

  module _ (payload : List (Row N)) where
    abbrev target : Option ℕ
    target = and_then (get_elem? payload i) (λ r. r.1)

    random-aim_at :
        o.random ≡ none → (aim_at nodes payload i o).random ≡ and_then target (get_elem? nodes)
    random-aim_at q = elim (Option-cases target) [ inl e ↦ simp e q | inr (a, e) ↦ simp e refl ]

    others-aim_at :
        ((aim_at nodes payload i o).next ≡ o.next) × ((aim_at nodes payload i o).val ≡ o.val)
    others-aim_at = elim (Option-cases target) [
      | inl e ↦ simp e (refl, refl)
      | inr (a, e) ↦ simp e (refl, refl)
    ]

module _ {N : Type 0} (h : Heap N) (payload : List (Row N)) where
  abbrev nodes : List ℕ
  nodes = addresses (length h) payload

  abbrev fresh : Heap N
  fresh = map (λ r. cell (value_of r)) payload

  abbrev final : Heap N
  final = map_from (aim_at nodes payload) 0 (map_from (link_at nodes) 0 fresh)

  -- The node of a row, at its index.
  abbrev node_at : ℕ → Row N → Object N
  node_at i r = aim_at nodes payload i (link_at nodes i (cell (value_of r)))

  length-final : length final ≡ length payload
  length-final =
      length-map_from (aim_at nodes payload) 0 (map_from (link_at nodes) 0 fresh)
      ∙ length-map_from (link_at nodes) 0 fresh
      ∙ length-map (λ r. cell (value_of r)) payload

  build_random_list-final :
      all_of (in_range (length payload)) payload ≡ true
      → build_random_list payload h ≡ some (first_of nodes, h ++ final)
  unfolding build_random_list
  build_random_list-final ok =
      let first =
        for_each-addresses (link_at nodes) 0 h payload fresh
          (sym (length-map (λ r. cell (value_of r)) payload)) in
      let second =
        for_each-addresses (aim_at nodes payload) 0 h payload (map_from (link_at nodes) 0 fresh) (
          sym (
            length-map_from (link_at nodes) 0 fresh
            ∙ length-map (λ r. cell (value_of r)) payload)) in
      rw ok (
        ap (λ g. some (first_of nodes, for_each (aim_at nodes payload) 0 nodes g)) first
        ∙ ap (λ g. some (first_of nodes, g)) second)

  get_elem?-final :
      (i : ℕ) (r : Row N)
      → get_elem? payload i ≡ some r
      → get_elem? (h ++ final) (length h + i) ≡ some (node_at i r)
  get_elem?-final i r e =
      get_elem?-append h final i
      ∙ get_elem?-map_from_zero (aim_at nodes payload) (map_from (link_at nodes) 0 fresh) i
      ∙ ap (λ o. and_then o (λ x. some (aim_at nodes payload i x)))
          (get_elem?-map_from_zero (link_at nodes) fresh i
            ∙ ap (λ o. and_then o (λ x. some (link_at nodes i x)))
                (get_elem?-map (λ r. cell (value_of r)) payload i
                  ∙ ap (λ o. and_then o (λ r. some (cell (value_of r)))) e))

  next-node_at : (i : ℕ) (r : Row N) → (node_at i r).next ≡ get_elem? nodes (suc i)
  next-node_at i r =
      (others-aim_at nodes i (link_at nodes i (cell (value_of r))) payload).0
      ∙ next-link_at nodes i (cell (value_of r)) refl

  random-node_at :
      (i : ℕ) (r : Row N)
      → get_elem? payload i ≡ some r
      → (node_at i r).random ≡ and_then r.1 (get_elem? nodes)
  random-node_at i r e =
      random-aim_at nodes i (link_at nodes i (cell (value_of r))) payload
        (others-link_at nodes i (cell (value_of r))).0
      ∙ ap (λ o. and_then (and_then o (λ r. r.1)) (get_elem? nodes)) e

  val-node_at : (i : ℕ) (r : Row N) → (node_at i r).val ≡ value_of r
  val-node_at i r =
      (others-aim_at nodes i (link_at nodes i (cell (value_of r))) payload).1
      ∙ (others-link_at nodes i (cell (value_of r))).1

  final-Straight : Straight (h ++ final) (length h) payload
  final-Straight i l =
      let (r, e) = get_elem?-some payload i l in
      ap (λ o. and_then o (λ o. o.next)) (get_elem?-final i r e) ∙ next-node_at i r

  -- The index of a target among the nodes of the list.
  index-target :
      (r : Row N)
      → in_range (length payload) r ≡ true
      → and_then (and_then r.1 (get_elem? nodes)) (index_from 0 nodes) ≡ r.1
  index-target (v, none) b = refl
  index-target (v, some t) b =
      let l = ltb→lt t (length payload) b in
      ap (λ a. and_then a (index_from 0 nodes)) (get_elem?-addresses (length h) payload t l)
      ∙ index_from-addresses 0 (length h) payload t l
      ∙ ap some (zero_add t)

  row_of-final :
      all_of (in_range (length payload)) payload ≡ true
      → (i : ℕ) (r : Row N) → get_elem? payload i ≡ some r
      → row_of (h ++ final) nodes (length h + i) ≡ r
  row_of-final ok i r e =
      ap₂ (λ v t. (v, t)) (ap val_or_null (get_elem?-final i r e) ∙ val-node_at i r)
        (ap (λ o. and_then (and_then o (λ o. o.random)) (index_from 0 nodes))
            (get_elem?-final i r e)
          ∙ ap (λ a. and_then a (index_from 0 nodes)) (random-node_at i r e)
          ∙ index-target r (all_of-get_elem? (in_range (length payload)) payload i r ok e))

  encode_random_list-final :
      all_of (in_range (length payload)) payload ≡ true
      → encode_random_list (h ++ final) (first_of nodes) ≡ encoded payload
  unfolding encode_random_list
  encode_random_list-final ok =
      let enough : length payload ≤ length (h ++ final) =
        omega (arith, length-append h final, length-final) in
      rw (walk_next-Straight (h ++ final) (length h) payload final-Straight enough) (
        ap encoded (map-addresses (row_of (h ++ final) nodes) (length h) payload (row_of-final ok)))

  -- Where every random index is `None` or the index of a row, `_build_random_list` makes a list, in a
  -- heap with any other objects, and encoding that list gives back the rows.
  pub encode_random_list-build_random_list :
      all_of (in_range (length payload)) payload ≡ true
      → and_then (build_random_list payload h) (λ (head, g). some (encode_random_list g head))
        ≡ some (encoded payload)
  encode_random_list-build_random_list ok =
      ap (λ b. and_then b (λ (head, g). some (encode_random_list g head)))
        (build_random_list-final ok)
      ∙ ap some (encode_random_list-final ok)
