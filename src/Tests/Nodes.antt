-- ===== src/Tests/Nodes.antt =====
-- Lists in a heap with other objects, a list whose last node points back, and a probed replay.
use shikomi.Prelude.{
  arith, ℕ, ◌≡◌, refl, true, Option, none, some, List, [], ◌∷◌, map, and_then, is_some,
}
use shikomi.Json.{null, Json, num}
use shikomi.Harness.Nodes.{
  is_finished, Heap, cell, set_next, Row, val_of, encoded, malformed, build_list, flatten_list,
  build_random_list, encode_random_list, build_cyclic_list, encode_cyclic_node,
}
use shikomi.Harness.Nodes.Lists.{flatten_list-build_list}
use shikomi.Harness.Nodes.Trees.{build_tree, flatten_tree, flatten_within, trim}
use shikomi.Harness.Nodes.Trees.Flatten.{flatten_tree-build_tree}
use shikomi.Harness.Nodes.Walk.Ends.{flatten_list-follow, follow, path}
use shikomi.Harness.Nodes.Random.{encode_random_list-build_random_list}

abbrev other : Heap ℕ
other = cell (num 9) ∷ []

abbrev values : List (Json ℕ)
values = num 1 ∷ num 2 ∷ num 1 ∷ []

flatten_list-build_list_example :
    flatten_list (build_list values other).1 (build_list values other).0 ≡ encoded values
flatten_list-build_list_example = flatten_list-build_list values other

-- The second node points back to the first.
abbrev looped : Heap ℕ
looped = set_next (some 1) (cell (num 1)) ∷ set_next (some 0) (cell (num 2)) ∷ []

flatten_list-follow_example :
    (is_finished (flatten_list looped (some 0)) ≡ true)
    × ((n : ℕ)
        → follow looped n (some 0) ≡ none
        → flatten_list looped (some 0) ≡ encoded (map (val_of looped) (path looped n (some 0))))
    × (((n : ℕ) → is_some (follow looped n (some 0)) ≡ true)
        → flatten_list looped (some 0) ≡ malformed)
flatten_list-follow_example = flatten_list-follow looped (some 0)

flatten_list-looped : flatten_list looped (some 0) ≡ malformed
unfolding flatten_list
flatten_list-looped = refl

abbrev rows : List (Row ℕ)
rows = (num 7, none) ∷ (num 7, some 0) ∷ (num 5, some 1) ∷ []

encode_random_list-build_random_list_example :
    and_then (build_random_list rows other) (λ (head, g). some (encode_random_list g head))
    ≡ some (encoded rows)
encode_random_list-build_random_list_example = encode_random_list-build_random_list other rows refl

-- The node after the last one is the one at the given position.
cyclic_target : Option (Option ℕ × Heap ℕ) → Option ℕ
cyclic_target r = and_then r (λ (head, g). and_then (follow g 3 head) (encode_cyclic_node g))

build_cyclic_list-target : cyclic_target (build_cyclic_list values (some 1) other) ≡ some 1
unfolding build_cyclic_list cyclic_target
build_cyclic_list-target = refl

-- A root whose left child is missing, with one grandchild and a trailing null.
abbrev levels : List (Json ℕ)
levels = num 1 ∷ null ∷ num 2 ∷ num 3 ∷ null ∷ []

flatten_tree-build_tree_example :
    flatten_tree (build_tree levels other).1 (build_tree levels other).0 ≡ encoded (trim levels)
flatten_tree-build_tree_example = flatten_tree-build_tree levels other refl (omega arith)

flatten_within-levels :
    flatten_within 20 (build_tree levels other).1 (build_tree levels other).0
    ≡ encoded (num 1 ∷ null ∷ num 2 ∷ num 3 ∷ [])
unfolding flatten_within build_tree
flatten_within-levels = refl

-- The child of the root is the root.
abbrev knotted : Heap ℕ
knotted = record (cell (num 1)) { left = some 1 } ∷ record (cell (num 2)) { right = some 0 } ∷ []

flatten_within-knotted : flatten_within 20 knotted (some 0) ≡ malformed
unfolding flatten_within
flatten_within-knotted = refl
