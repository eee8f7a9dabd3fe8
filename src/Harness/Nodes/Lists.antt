-- ===== src/Harness/Nodes/Lists.antt =====
-- `_build_list` and `_flatten_list` together.
use shikomi.Prelude.{
  and_then, ℕ, zero, suc, ◌≡◌, refl, ap, ◌∙◌, sym, none, some, List, [], ◌∷◌, ◌++◌, map, length,
  get_elem?, arith, length-append, ◌<◌, ◌≤◌,
}
use mathlib.Core.List.{append_assoc, append-nil}
use mathlib.Core.Option.{none-ne-some, some-injective}
use shikomi.Json.{Json}
use shikomi.Harness.Nodes.{
  Heap, cell, modify, set_next, val_of, val_or_null, first_of, addresses, encoded, build_from,
  build_list, flatten_list, map_encoded,
}
use shikomi.Harness.Nodes.Segment.{map-addresses, get_elem?-append, length-snoc, modify-append}
use shikomi.Harness.Nodes.Walk.{Straight, walk_next-Straight}

module _ {N : Type 0} where
  -- The nodes of a straight list of values, from address `k`.
  abbrev line : ℕ → List (Json N) → Heap N
  line k [] = []
  line k (v ∷ vs) = set_next (first_of (addresses (suc k) vs)) (cell v) ∷ line (suc k) vs

  length-line : (k : ℕ) (vs : List (Json N)) → length (line k vs) ≡ length vs
  length-line k [] = refl
  length-line k (v ∷ vs) = ap suc (length-line (suc k) vs)

  build_from-line :
      (head : ℕ) (v : Json N) (vs : List (Json N)) (h : Heap N)
      → build_from vs (some (head, length h)) (h ++ (cell v ∷ []))
        ≡ (some head, h ++ line (length h) (v ∷ vs))
  unfolding build_from
  build_from-line head v [] h = refl
  build_from-line head v (w ∷ vs) h =
      let linked = set_next (some (suc (length h))) (cell v) in
      let g = h ++ (linked ∷ []) in
      ap
        (λ n.
          build_from vs (some (head, n))
            (modify (length h) (set_next (some n)) ((h ++ (cell v ∷ [])) ++ (cell w ∷ []))))
        (sym (length-snoc h (cell v)))
      ∙ ap (build_from vs (some (head, suc (length h)))) (
          ap (modify (length h) (set_next (some (suc (length h)))))
            (append_assoc h (cell v ∷ []) (cell w ∷ []))
          ∙ modify-append h (set_next (some (suc (length h)))) (cell v) (cell w ∷ [])
          ∙ sym (append_assoc h (linked ∷ []) (cell w ∷ [])))
      ∙ ap (λ n. build_from vs (some (head, n)) (g ++ (cell w ∷ []))) (length-snoc h linked)
      ∙ build_from-line head w vs g
      ∙ ap (λ n. (some head, g ++ line n (w ∷ vs))) (sym (length-snoc h linked))
      ∙ ap (λ g. (some head, g)) (append_assoc h (linked ∷ []) (line (suc (length h)) (w ∷ vs)))

  build_list-line :
      (vs : List (Json N)) (h : Heap N)
      → build_list vs h ≡ (first_of (addresses (length h) vs), h ++ line (length h) vs)
  unfolding build_list build_from
  build_list-line [] h = ap (λ g. (none, g)) (sym (append-nil h))
  build_list-line (v ∷ vs) h = build_from-line (length h) v vs h

  next-line :
      (k : ℕ) (vs : List (Json N)) (i : ℕ)
      → i < length vs
      → and_then (get_elem? (line k vs) i) (λ o. o.next) ≡ get_elem? (addresses k vs) (suc i)
  next-line k [] i l = absurd (omega (arith, l))
  next-line k (v ∷ []) zero l = refl
  next-line k (v ∷ w ∷ vs) zero l = refl
  next-line k (v ∷ vs) (suc i) l = next-line (suc k) vs i (omega (arith, l))

  line-Straight :
      (h : Heap N) (vs : List (Json N)) → Straight (h ++ line (length h) vs) (length h) vs
  line-Straight h vs i l =
      ap (λ o. and_then o (λ o. o.next)) (get_elem?-append h (line (length h) vs) i)
      ∙ next-line (length h) vs i l

  val-line :
      (k : ℕ) (vs : List (Json N)) (i : ℕ) (v : Json N)
      → get_elem? vs i ≡ some v
      → val_or_null (get_elem? (line k vs) i) ≡ v
  val-line k [] i v e = absurd (none-ne-some v e)
  val-line k (w ∷ vs) zero v e = some-injective w v e
  val-line k (w ∷ vs) (suc i) v e = val-line (suc k) vs i v e

  flatten_list-line :
      (vs : List (Json N)) (h : Heap N)
      → flatten_list (h ++ line (length h) vs) (first_of (addresses (length h) vs)) ≡ encoded vs
  unfolding flatten_list
  flatten_list-line vs h =
      let g = h ++ line (length h) vs in
      let enough : length vs ≤ length g =
        omega (arith, length-append h (line (length h) vs), length-line (length h) vs) in
      ap (map_encoded (map (val_of g)))
        (walk_next-Straight g (length h) vs (line-Straight h vs) enough)
      ∙ ap encoded (
          map-addresses (val_of g) (length h) vs (λ i v e.
            ap val_or_null (get_elem?-append h (line (length h) vs) i)
            ∙ val-line (length h) vs i v e))

  -- Flattening the list that `_build_list` makes of an array, in a heap with any other objects, gives
  -- back the array.
  pub flatten_list-build_list :
      (vs : List (Json N)) (h : Heap N)
      → (let (head, g) = build_list vs h in flatten_list g head) ≡ encoded vs
  flatten_list-build_list vs h =
      ap (λ r. flatten_list r.1 r.0) (build_list-line vs h) ∙ flatten_list-line vs h
