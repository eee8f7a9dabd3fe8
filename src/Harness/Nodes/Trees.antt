-- ===== src/Harness/Nodes/Trees.antt =====
-- The tree codec of judge/harness.py: `_build_tree`, `_tree_has_cycle` and `_flatten_tree`.
pub mod Attach
pub mod Fill
pub mod Cycle
pub mod Entries
pub mod Flatten
use shikomi.Prelude.{
  and_then, ℕ, zero, suc, ◌+◌, ◌*◌, ◌==◌, Bool, true, false, not, ◌&&◌, Option, none, some, List,
  [], ◌∷◌, ◌++◌, length, get_elem?, if◌then◌else◌,
}
use shikomi.Json.{Json, null}
use shikomi.Services.{among}
use shikomi.Harness.Nodes.{
  Object, Heap, cell, modify, val_of, Encoded, encoded, malformed, unfinished, map_encoded,
}

pub data Side : Type 0 where
  left_side right_side : Side

abbrev pub same_side : Side → Side → Bool
same_side left_side left_side = true
same_side right_side right_side = true
same_side _ _ = false

-- _MAX_TREE_ENTRIES
abbrev pub max_tree_entries : ℕ
max_tree_entries = 2000000

abbrev pub listed : Option ℕ → List ℕ
listed none = []
listed (some a) = a ∷ []

-- An entry of the stack of `_tree_has_cycle`: a node, and whether it is being left.
abbrev pub to_enter : Option ℕ → List (ℕ × Bool)
to_enter none = []
to_enter (some a) = (a, false) ∷ []

abbrev pub discard : ℕ → List ℕ → List ℕ
discard a [] = []
discard a (b ∷ bs) = if b == a then discard a bs else b ∷ discard a bs

-- A node that is met again is skipped where it is finished, and is a cycle where it is on the path.
abbrev pub met : Bool → Bool → (Unit {0} → Option Bool) → (Unit {0} → Option Bool) → Option Bool
met true on_path skip enter = skip tt
met false true skip enter = some true
met false false skip enter = enter tt

module _ {N : Type 0} where
  abbrev pub is_null : Json N → Bool
  is_null null = true
  is_null _ = false

  -- `setattr(node, side, child)`
  abbrev pub set_child : Side → ℕ → Object N → Object N
  set_child left_side a o = record o { left = some a }
  set_child right_side a o = record o { right = some a }

  abbrev pub child_of : Side → Object N → Option ℕ
  child_of left_side o = o.left
  child_of right_side o = o.right

  abbrev pub child : Side → Heap N → ℕ → Option ℕ
  child side h a = and_then (get_elem? h a) (child_of side)

  -- The next value as a child of a node: the child, if the value is not `None`.
  abbrev pub attach : Side → ℕ → Json N → Heap N → Option ℕ × Heap N
  attach side a v h =
      if is_null v
      then (none, h)
      else (some (length h), modify a (set_child side (length h)) (h ++ (cell v ∷ [])))

  -- The loop over the queue of `_build_tree`, on the values that are left. It ends with the values or
  -- with the queue.
  unfoldable pub fill : List (Json N) → List ℕ → Heap N → Heap N
  fill [] queue h = h
  fill (v ∷ []) [] h = h
  fill (v ∷ w ∷ vs) [] h = h
  fill (v ∷ []) (a ∷ queue) h = (attach left_side a v h).1
  fill (v ∷ w ∷ vs) (a ∷ queue) h =
      let (l, g) = attach left_side a v h in
      let (r, k) = attach right_side a w g in fill vs (queue ++ listed l ++ listed r) k

  unfoldable pub build_tree : List (Json N) → Heap N → Option ℕ × Heap N
  unfolding fill
  build_tree [] h = (none, h)
  build_tree (v ∷ vs) h =
      if is_null v
      then (none, h)
      else (some (length h), fill vs (length h ∷ []) (h ++ (cell v ∷ [])))

  -- The loop of `_tree_has_cycle`; `none` is out of fuel.
  unfoldable pub visit : Heap N → ℕ → List (ℕ × Bool) → List ℕ → List ℕ → Option Bool
  visit h fuel [] on_path finished = some false
  visit h zero (entry ∷ stack) on_path finished = none
  visit h (suc fuel) ((a, true) ∷ stack) on_path finished =
      visit h fuel stack (discard a on_path) (a ∷ finished)
  visit h (suc fuel) ((a, false) ∷ stack) on_path finished =
      met (among a finished) (among a on_path) (λ u. visit h fuel stack on_path finished)
        (λ u.
          visit h fuel
            (to_enter (child left_side h a)
              ++ to_enter (child right_side h a)
              ++ ((a, true) ∷ stack))
            (a ∷ on_path) finished)

  -- Each node of the heap is entered once at most, with two children and a mark to leave it.
  unfoldable pub tree_has_cycle : Heap N → ℕ → Option Bool
  unfolding visit
  tree_has_cycle h root = visit h (2 + 4 * length h) ((root, false) ∷ []) [] []

  -- The loop of `_flatten_tree` over its queue, with the number of entries that are still allowed.
  unfoldable pub spread : Heap N → ℕ → List (Option ℕ) → Encoded (List (Json N))
  spread h left_over [] = encoded []
  spread h zero (entry ∷ queue) = malformed
  spread h (suc left_over) (none ∷ queue) = map_encoded (λ vs. null ∷ vs) (spread h left_over queue)
  spread h (suc left_over) (some a ∷ queue) =
      map_encoded (λ vs. val_of h a ∷ vs)
        (spread h left_over (queue ++ (child left_side h a ∷ child right_side h a ∷ [])))

  -- `while out and out[-1] is None: out.pop()`
  abbrev pub trim : List (Json N) → List (Json N)
  trim [] = []
  trim (v ∷ vs) = keep v (trim vs)
    where
      keep : Json N → List (Json N) → List (Json N)
      keep v [] = if is_null v then [] else v ∷ []
      keep v (w ∷ ws) = v ∷ w ∷ ws

  -- `_flatten_tree` with a limit on the entries
  unfoldable pub flatten_within : ℕ → Heap N → Option ℕ → Encoded (List (Json N))
  unfolding tree_has_cycle spread
  flatten_within limit h none = encoded []
  flatten_within limit h (some root) = encode (tree_has_cycle h root)
    where
      encode : Option Bool → Encoded (List (Json N))
      encode none = unfinished
      encode (some true) = malformed
      encode (some false) = map_encoded trim (spread h limit (some root ∷ []))

  unfoldable pub flatten_tree : Heap N → Option ℕ → Encoded (List (Json N))
  unfolding flatten_within
  flatten_tree h root = flatten_within max_tree_entries h root
