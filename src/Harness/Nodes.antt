-- ===== src/Harness/Nodes.antt =====
-- The node codecs of judge/harness.py: the node objects that a submission's function takes and
-- returns, in a heap where an object's address is its `id`. One record has the attributes of all node
-- classes; an attribute that an object lacks is `None` (`null`, `none` or `[]`), as `getattr` reads
-- it.
pub mod Segment
pub mod Unseen
pub mod Walk
pub mod Lists
pub mod Random
pub mod Trees
use shikomi.Prelude.{
  and_then, ℕ, zero, suc, ◌==◌, Bool, true, false, Option, none, some, List, [], ◌∷◌, ◌++◌, map,
  length, get_elem?, if◌then◌else◌, is_some, all_of, ltb,
}
use shikomi.Json.{Json, null}
use shikomi.Services.{among}

pub record Object (N : Type 0) : Type 0 where
  pub val : Json N
  pub next : Option ℕ
  pub random : Option ℕ
  pub left : Option ℕ
  pub right : Option ℕ
  -- the index that `_build_cyclic_list` stamps on a node, `_idx`
  pub idx : Option ℕ

-- What an encoder gives; `unfinished` is a walk out of fuel.
pub data Encoded {ℓ} (A : Type ℓ) : Type ℓ where
  encoded : A → Encoded A
  malformed unfinished : Encoded A

abbrev pub is_finished {ℓ} : {A : Type ℓ} → Encoded A → Bool
is_finished unfinished = false
is_finished _ = true

abbrev pub map_encoded {ℓ ℓ'} : {A : Type ℓ} {B : Type ℓ'} → (A → B) → Encoded A → Encoded B
map_encoded f (encoded a) = encoded (f a)
map_encoded f malformed = malformed
map_encoded f unfinished = unfinished

abbrev pub Heap : Type 0 → Type 0
Heap N = List (Object N)

module _ {N : Type 0} where
  -- `ListNode(v)`, `RandomListNode(v)` and `TreeNode(v)`
  abbrev pub cell : Json N → Object N
  cell v = record { val = v; next = none; random = none; left = none; right = none; idx = none }

  -- An assignment to attributes of the object at an address.
  abbrev pub modify : ℕ → (Object N → Object N) → Heap N → Heap N
  modify i f [] = []
  modify zero f (o ∷ h) = f o ∷ h
  modify (suc i) f (o ∷ h) = o ∷ modify i f h

  abbrev pub set_next : Option ℕ → Object N → Object N
  set_next a o = record o { next = a }

  abbrev pub set_random : Option ℕ → Object N → Object N
  set_random a o = record o { random = a }

  abbrev pub set_idx : ℕ → Object N → Object N
  set_idx i o = record o { idx = some i }

  abbrev pub next_of : Heap N → ℕ → Option ℕ
  next_of h a = and_then (get_elem? h a) (λ o. o.next)

  abbrev pub random_of : Heap N → ℕ → Option ℕ
  random_of h a = and_then (get_elem? h a) (λ o. o.random)

  -- `_encode_cyclic_node`, of a node
  abbrev pub encode_cyclic_node : Heap N → ℕ → Option ℕ
  encode_cyclic_node h a = and_then (get_elem? h a) (λ o. o.idx)

  abbrev pub val_or_null : Option (Object N) → Json N
  val_or_null none = null
  val_or_null (some o) = o.val

  abbrev pub val_of : Heap N → ℕ → Json N
  val_of h a = val_or_null (get_elem? h a)

  -- The loop of `_build_list` on the remaining values, with `head` and `tail`, which are set together.
  unfoldable pub build_from : List (Json N) → Option (ℕ × ℕ) → Heap N → Option ℕ × Heap N
  build_from [] none h = (none, h)
  build_from [] (some (head, tail)) h = (some head, h)
  build_from (v ∷ vs) none h =
      let node = length h in build_from vs (some (node, node)) (h ++ (cell v ∷ []))
  build_from (v ∷ vs) (some (head, tail)) h =
      let node = length h in
      build_from vs (some (head, node)) (modify tail (set_next (some node)) (h ++ (cell v ∷ [])))

  unfoldable pub build_list : List (Json N) → Heap N → Option ℕ × Heap N
  unfolding build_from
  build_list values h = build_from values none h

  -- `_walk_next` from `head`, with the nodes seen so far in order.
  unfoldable pub walk_from : Heap N → ℕ → Option ℕ → List ℕ → Encoded (List ℕ)
  walk_from h fuel none order = encoded order
  walk_from h zero (some a) order = unfinished
  walk_from h (suc fuel) (some a) order =
      let rest = walk_from h fuel (next_of h a) (order ++ (a ∷ [])) in
      if among a order then malformed else rest

  -- A walk visits each object of the heap once at most.
  unfoldable pub walk_next : Heap N → Option ℕ → Encoded (List ℕ)
  unfolding walk_from
  walk_next h head = walk_from h (suc (length h)) head []

  unfoldable pub flatten_list : Heap N → Option ℕ → Encoded (List (Json N))
  unfolding walk_next
  flatten_list h node = map_encoded (map (val_of h)) (walk_next h node)

  -- The loop `for i, node in enumerate(nodes)` that assigns to attributes of `node`, from index `i`.
  abbrev pub for_each : (ℕ → Object N → Object N) → ℕ → List ℕ → Heap N → Heap N
  for_each f i [] h = h
  for_each f i (a ∷ rest) h = for_each f (suc i) rest (modify a (f i) h)

  -- `if i + 1 < len(nodes): node.next = nodes[i + 1]`
  abbrev pub link_at : List ℕ → ℕ → Object N → Object N
  link_at nodes i o = link (get_elem? nodes (suc i))
    where
      link : Option ℕ → Object N
      link none = o
      link (some b) = set_next (some b) o

-- The addresses of as many objects as are made after those below `k`.
abbrev pub addresses {ℓ} : {A : Type ℓ} → ℕ → List A → List ℕ
addresses k [] = []
addresses k (x ∷ xs) = k ∷ addresses (suc k) xs

abbrev pub first_of : List ℕ → Option ℕ
first_of [] = none
first_of (a ∷ rest) = some a

-- `nodes[-1]`
abbrev pub last_of : List ℕ → Option ℕ
last_of [] = none
last_of (a ∷ []) = some a
last_of (a ∷ b ∷ rest) = last_of (b ∷ rest)

-- `{id(n): i for i, n in enumerate(order)}.get(a)`, from index `i`, where no node comes twice
abbrev pub index_from : ℕ → List ℕ → ℕ → Option ℕ
index_from i [] a = none
index_from i (b ∷ order) a = if b == a then some i else index_from (suc i) order a

-- A row of the wire format of a random list: a value and an index, which is a natural number.
abbrev pub Row : Type 0 → Type 0
Row N = Json N × Option ℕ

module _ {N : Type 0} where
  abbrev pub value_of : Row N → Json N
  value_of r = r.0

  -- `nodes[random_index]` exists where the index is not `None`
  abbrev pub in_range : ℕ → Row N → Bool
  in_range n (v, none) = true
  in_range n (v, some r) = ltb r n

  -- `if random_index is not None: node.random = nodes[random_index]`
  abbrev pub aim_at : List ℕ → List (Row N) → ℕ → Object N → Object N
  aim_at nodes payload i o = aim (and_then (get_elem? payload i) (λ r. r.1))
    where
      aim : Option ℕ → Object N
      aim none = o
      aim (some r) = set_random (get_elem? nodes r) o

  -- `_build_random_list`; `none` is the `IndexError` of an index past the nodes.
  unfoldable pub build_random_list : List (Row N) → Heap N → Option (Option ℕ × Heap N)
  build_random_list payload h =
      let nodes = addresses (length h) payload in
      let made = h ++ map (λ r. cell (value_of r)) payload in
      let chained = for_each (link_at nodes) 0 nodes made in
      if all_of (in_range (length payload)) payload
      then some (first_of nodes, for_each (aim_at nodes payload) 0 nodes chained)
      else none

  abbrev pub row_of : Heap N → List ℕ → ℕ → Row N
  row_of h order a = (val_of h a, and_then (random_of h a) (index_from 0 order))

  unfoldable pub encode_random_list : Heap N → Option ℕ → Encoded (List (Row N))
  unfolding walk_next
  encode_random_list h head = rows (walk_next h head)
    where
      rows : Encoded (List ℕ) → Encoded (List (Row N))
      rows (encoded order) = encoded (map (row_of h order) order)
      rows malformed = malformed
      rows unfinished = unfinished

  -- `_build_cyclic_list`, with `none` for the `pos` -1; `none` is an `IndexError`.
  unfoldable pub build_cyclic_list : List (Json N) → Option ℕ → Heap N → Option (Option ℕ × Heap N)
  build_cyclic_list values pos h =
      let nodes = addresses (length h) values in
      let made = h ++ map cell values in
      let chained = for_each (λ i o. link_at nodes i (set_idx i o)) 0 nodes made in
      close (last_of nodes) (and_then pos (get_elem? nodes)) pos nodes chained
    where
      -- `if nodes and pos != -1: nodes[-1].next = nodes[pos]`
      close : Option ℕ → Option ℕ → Option ℕ → List ℕ → Heap N → Option (Option ℕ × Heap N)
      close (some tail) (some target) pos nodes g =
          some (first_of nodes, modify tail (set_next (some target)) g)
      close (some tail) none (some p) nodes g = none
      close _ _ _ nodes g = some (first_of nodes, g)
