-- ===== src/Problem/Wires.antt =====
-- The node encodings in a test case (`_is_index`, `_operations_case`, `_operations_ctor_args`,
-- `_malformed_node_wire` and `_node_values`). `read` is what the checks read of a
-- number and of a text.
use Prim.Native.String.{String}
use shikomi.Prelude.{
  ℕ, suc, Bool, true, false, not, ◌||◌, Option, none, some, List, [], ◌∷◌, ◌++◌, ltb, length,
  any_of,
}
use shikomi.Json.{Json, null, bool, num, arr, nil, cons, to_list}
use shikomi.Sandbox.{
  NodeType, list_node, tree_node, list_nodes, tree_nodes, cyclic_list, random_list, graph,
}

pub record Read (N : Type 0) : Type 0 where
  -- the natural number that an `int` is
  pub index_of : N → Option ℕ
  -- `x == -1`
  pub is_minus_one : N → Bool
  -- `x == 0`
  pub is_zero : N → Bool
  -- an `int` between -2^31 and 2^31 - 1
  pub is_i32 : N → Bool
  -- the code points of a text
  pub chars : String → List ℕ

abbrev pub below : ℕ → Option ℕ → Bool
below size none = false
below size (some i) = ltb i size

-- 1 to `size`
abbrev pub one_to : ℕ → Option ℕ → Bool
one_to size (some (suc i)) = ltb i size
one_to size _ = false

module _ {N : Type 0} where
  -- `_operations_case`
  unfoldable pub operations_case : List (Json N) → List (Json N) × List (Json N)
  operations_case (ops ∷ args ∷ []) = (items ops, items args)
    where
      items : Json N → List (Json N)
      items (arr xs) = to_list xs
      items _ = []
  operations_case _ = ([], [])

  -- `_operations_ctor_args`
  unfoldable pub operations_ctor_args : List (Json N) → List (Json N)
  unfolding operations_case
  operations_ctor_args input = first (operations_case input).1
    where
      first : List (Json N) → List (Json N)
      first (arr xs ∷ rest) = to_list xs
      first _ = []

  module _ (read : Read N) where
    abbrev pub is_index : ℕ → Json N → Bool
    is_index size (num a) = below size (read.index_of a)
    is_index size _ = false

    -- A pair of a value and a random index, in a list of `size`.
    abbrev pub bad_pair : ℕ → Json N → Bool
    bad_pair size (arr (cons v (cons null nil))) = false
    bad_pair size (arr (cons v (cons i nil))) = not (is_index size i)
    bad_pair size _ = true

    abbrev pub is_neighbour : ℕ → Json N → Bool
    is_neighbour size (num a) = one_to size (read.index_of a)
    is_neighbour size _ = false

    abbrev pub bad_row : ℕ → Json N → Bool
    bad_row size (arr row) = any_of (λ nb. not (is_neighbour size nb)) (to_list row)
    bad_row size nb = not (is_neighbour size nb)

    abbrev pub bad_position : ℕ → Json N → Bool
    bad_position size (num a) = not (read.is_minus_one a || below size (read.index_of a))
    bad_position size _ = true

    abbrev pub bad_cycle : Json N → Bool
    bad_cycle (arr nil) = false
    bad_cycle (arr (cons (arr values) (cons pos nil))) = bad_position (length (to_list values)) pos
    bad_cycle _ = true

    -- Iterating over what is neither a sequence nor empty is a `TypeError`, which ends the load too.
    abbrev pub not_iterable : Json N → Bool
    not_iterable (num a) = not (read.is_zero a)
    not_iterable (bool b) = b
    not_iterable _ = false

    -- `_malformed_node_wire`, true for a problem
    unfoldable pub malformed_node_wire : NodeType → Json N → Bool
    malformed_node_wire t null = false
    malformed_node_wire list_nodes wire = not_iterable wire
    malformed_node_wire tree_nodes wire = not_iterable wire
    malformed_node_wire cyclic_list wire = bad_cycle wire
    malformed_node_wire random_list (arr xs) = any_of (bad_pair (length (to_list xs))) (to_list xs)
    malformed_node_wire graph (arr xs) = any_of (bad_row (length (to_list xs))) (to_list xs)
    malformed_node_wire _ _ = false

  abbrev pub present : List (Json N) → List (Json N)
  present [] = []
  present (null ∷ vs) = present vs
  present (v ∷ vs) = v ∷ present vs

  abbrev pub pair_values : List (Json N) → List (Json N)
  pair_values [] = []
  pair_values (arr (cons v rest) ∷ pairs) = v ∷ pair_values pairs
  pair_values (pair ∷ pairs) = pair_values pairs

  abbrev pub inner_values : List (Json N) → List (Json N)
  inner_values [] = []
  inner_values (arr xs ∷ items) = present (to_list xs) ++ inner_values items
  inner_values (item ∷ items) = inner_values items

  -- `_node_values`
  unfoldable pub node_values : NodeType → Json N → List (Json N)
  node_values list_nodes (arr xs) = inner_values (to_list xs)
  node_values tree_nodes (arr xs) = inner_values (to_list xs)
  node_values list_node (arr xs) = present (to_list xs)
  node_values tree_node (arr xs) = present (to_list xs)
  node_values cyclic_list (arr (cons (arr values) (cons pos nil))) = to_list values
  node_values random_list (arr xs) = pair_values (to_list xs)
  node_values _ _ = []
