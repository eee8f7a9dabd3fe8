-- ===== src/Harness/Nesting.antt =====
-- `_nests_too_deeply` of judge/harness.py: the loop over a stack of containers, and how deep a value
-- goes. The fuel of the loop is the number of containers in the value.
use shikomi.Prelude.{
  ℕ, suc, zero, ◌≡◌, ◌≤◌, ◌+◌, refl, ◌∙◌, ◌⊎◌, Bool, true, false, ◌&&◌, ◌||◌, List, [], ◌∷◌, ltb,
  if◌then◌else◌, arith, max, not, Bool-cases, inl, inr,
}
use shikomi.Json.{Json, null, bool, num, str, arr, obj, Items, nil, cons, Fields, end, field}

ltb-max : (limit d a b : ℕ) → ltb limit (d + max a b) ≡ (ltb limit (d + a) || ltb limit (d + b))
ltb-max limit d a b = ground arith

ltb-suc : (limit d x : ℕ) → ltb (suc limit) (d + suc x) ≡ ltb limit (d + x)
ltb-suc limit d x = ground arith

||-swap : (r p q : Bool) → ((p || r) || q) ≡ (r || (p || q))
||-swap true true q = refl
||-swap true false q = refl
||-swap false true q = refl
||-swap false false q = refl

deeper :
    (limit d x m : ℕ) (r : Bool)
    → ((ltb limit (d + x) || r) || ltb (suc limit) (d + m))
      ≡ (r || ltb (suc limit) (d + max (suc x) m))
deeper limit d x m r =
    rw (ltb-max (suc limit) d (suc x) m, ltb-suc limit d x)
      (||-swap r (ltb limit (d + x)) (ltb (suc limit) (d + m)))

level :
    (limit d m : ℕ) (r : Bool)
    → d ≤ limit
    → (r || ltb (suc limit) (d + m)) ≡ (r || ltb (suc limit) (d + max 1 m))
level limit d m r le =
    let low : ltb (suc limit) (d + 1) ≡ false = ground arith in
    rw (ltb-max (suc limit) d 1 m, low) refl

ltb-low : (limit d : ℕ) → d ≤ limit → ltb limit (d + 0) ≡ false
ltb-low limit d le = ground arith

high : (limit d m : ℕ) → ltb limit (suc d) ≡ true → 1 ≤ m → ltb limit (d + m) ≡ true
high limit d m t le = ground arith

settled : (limit d m : ℕ) (r : Bool) → (r || ltb (suc limit) (suc d + m)) ≡ (ltb limit (d + m) || r)
settled limit d m true = ground arith
settled limit d m false = ground arith

module _ {N : Type 0} where
  abbrev is_container : Json N → Bool
  is_container (arr xs) = true
  is_container (obj fs) = true
  is_container _ = false

  -- `node.values() if isinstance(node, dict) else node`
  abbrev values : Fields N → Items N
  values end = nil
  values (field k v fs) = cons v (values fs)

  abbrev children : Json N → Items N
  children (arr xs) = xs
  children (obj fs) = values fs
  children _ = nil

  abbrev is_empty : Items N → Bool
  is_empty nil = true
  is_empty (cons x xs) = false

  -- `todo.extend(...)`: the end of the list, where `pop` takes from, comes first here.
  unfoldable extend : Items N → ℕ → List (Json N × ℕ) → List (Json N × ℕ)
  extend nil d todo = todo
  extend (cons x xs) d todo = extend xs d (if is_container x then (x, d) ∷ todo else todo)

  unfoldable search_todo : ℕ → ℕ → List (Json N × ℕ) → Bool
  search_todo fuel limit [] = false
  search_todo zero limit (t ∷ todo) = true
  search_todo (suc fuel) limit ((node, depth) ∷ todo) =
      let rest = search_todo fuel limit (extend (children node) (suc depth) todo) in
      if ltb limit (suc depth) && not (is_empty (children node)) then true else rest

  -- The containers inside a value, itself included.
  mutual
    containers : Json N → ℕ
    containers (arr xs) = suc (containers_in xs)
    containers (obj fs) = suc (containers_under fs)
    containers _ = 0

    containers_in : Items N → ℕ
    containers_in nil = 0
    containers_in (cons x xs) = containers x + containers_in xs

    containers_under : Fields N → ℕ
    containers_under end = 0
    containers_under (field k v fs) = containers v + containers_under fs

  unfoldable pub nests_too_deeply : Json N → ℕ → Bool
  unfolding search_todo containers extend
  nests_too_deeply value limit =
      search_todo (containers value) limit (if is_container value then (value, 0) ∷ [] else [])

  -- How far down the deepest value inside sits.
  mutual
    pub depth : Json N → ℕ
    depth (arr xs) = depth_in xs
    depth (obj fs) = depth_under fs
    depth _ = 0

    pub depth_in : Items N → ℕ
    depth_in nil = 0
    depth_in (cons x xs) = max (suc (depth x)) (depth_in xs)

    pub depth_under : Fields N → ℕ
    depth_under end = 0
    depth_under (field k v fs) = max (suc (depth v)) (depth_under fs)

  -- What the loop has still to find.
  abbrev found : ℕ → List (Json N × ℕ) → Bool
  found limit [] = false
  found limit ((v, d) ∷ todo) = ltb limit (d + depth v) || found limit todo

  abbrev cost : List (Json N × ℕ) → ℕ
  cost [] = 0
  cost ((v, d) ∷ todo) = containers v + cost todo

  abbrev Within : ℕ → List (Json N × ℕ) → Type 0
  Within limit [] = Unit
  Within limit ((v, d) ∷ todo) = (d ≤ limit) × ((is_container v ≡ true) × Within limit todo)

  depth-children : (v : Json N) → depth v ≡ depth_in (children v)
  unfolding depth
  depth-children (arr xs) = refl
  depth-children (obj fs) = under fs
    where
      under : (fs : Fields N) → depth_under fs ≡ depth_in (values fs)
      under end = refl
      under (field k v fs) = rw (under fs) refl
  depth-children null = refl
  depth-children (bool b) = refl
  depth-children (num a) = refl
  depth-children (str s) = refl

  containers-children :
      (v : Json N) → is_container v ≡ true → containers v ≡ suc (containers_in (children v))
  unfolding containers
  containers-children (arr xs) h = refl
  containers-children (obj fs) h = rw (under fs) refl
    where
      under : (fs : Fields N) → containers_under fs ≡ containers_in (values fs)
      under end = refl
      under (field k v fs) = rw (under fs) refl
  containers-children null h = ground arith
  containers-children (bool b) h = ground arith
  containers-children (num a) h = ground arith
  containers-children (str s) h = ground arith

  scalar : (v : Json N) → is_container v ≡ false → (depth v ≡ 0) × (containers v ≡ 0)
  unfolding depth containers
  scalar (arr xs) h = ground arith
  scalar (obj fs) h = ground arith
  scalar null h = (refl, refl)
  scalar (bool b) h = (refl, refl)
  scalar (num a) h = (refl, refl)
  scalar (str s) h = (refl, refl)

  extend-lem :
      (limit d : ℕ) (xs : Items N) (todo : List (Json N × ℕ))
      → d ≤ limit
      → Within limit todo
      → Within limit (extend xs d todo)
        × ((cost (extend xs d todo) ≡ containers_in xs + cost todo)
            × (found limit (extend xs d todo)
                ≡ (found limit todo || ltb (suc limit) (d + depth_in xs))))
  unfolding extend depth_in containers_in
  extend-lem limit d nil todo le w = (w, (omega arith, ground arith))
  extend-lem limit d (cons x xs) todo le w = elim (Bool-cases (is_container x)) [
    | inl e ↦
        let h = extend-lem limit d xs ((x, d) ∷ todo) le (le, (e, w)) in
        rw e (
          h.0,
          (omega (arith, h.1.0), h.1.1 ∙ deeper limit d (depth x) (depth_in xs) (found limit todo)),
        )
    | inr g ↦
        let s = scalar x g in
        let h = extend-lem limit d xs todo le w in
        rw g (
          h.0,
          (
            omega (arith, h.1.0, s.1),
            h.1.1 ∙ rw s.0 (level limit d (depth_in xs) (found limit todo) le),
          ),
        )
  ]

  shape :
      (xs : Items N)
      → ((is_empty xs ≡ true) × (xs ≡ nil)) ⊎ ((is_empty xs ≡ false) × (1 ≤ depth_in xs))
  unfolding depth_in
  shape nil = inl (refl, refl)
  shape (cons x xs) = inr (refl, omega arith)

  search_todo-found :
      (fuel limit : ℕ) (todo : List (Json N × ℕ))
      → Within limit todo
      → cost todo ≤ fuel
      → search_todo fuel limit todo ≡ found limit todo
  unfolding search_todo extend depth_in
  search_todo-found fuel limit [] w le = refl
  search_todo-found zero limit ((v, d) ∷ todo) w le =
      let c = containers-children v w.1.0 in absurd (omega arith)
  search_todo-found (suc fuel) limit ((v, d) ∷ todo) w le =
      let c = containers-children v w.1.0 in
      let low : (r : Bool) → r ≡ (ltb limit (d + 0) || r) = rw (ltb-low limit d w.0) (λ r. refl) in
      elim (shape (children v)) [
        | inl (e, n) ↦
            rw (depth-children v, n)
              (elim (Bool-cases (ltb limit (suc d))) [
                | inl t ↦ rw t (
                    search_todo-found fuel limit todo w.1.1 (omega (arith, c))
                    ∙ low (found limit todo))
                | inr g ↦ rw g (
                    search_todo-found fuel limit todo w.1.1 (omega (arith, c))
                    ∙ low (found limit todo))
              ])
        | inr (e, n) ↦ elim (Bool-cases (ltb limit (suc d))) [
          | inl t ↦ rw (t, e, depth-children v, high limit d (depth_in (children v)) t n) refl
          | inr g ↦
              let h = extend-lem limit (suc d) (children v) todo (ground arith) w.1.1 in
              rw g (
                search_todo-found fuel limit (extend (children v) (suc d) todo) h.0
                  (omega (arith, h.1.0))
                ∙ (h.1.1
                    ∙ rw (depth-children v)
                        (settled limit d (depth_in (children v)) (found limit todo))))
        ]
      ]

  -- The loop finds a value below the limit exactly when the deepest one is below it.
  pub nests_too_deeply-depth :
      (v : Json N) (limit : ℕ) → nests_too_deeply v limit ≡ ltb limit (depth v)
  unfolding nests_too_deeply search_todo
  nests_too_deeply-depth v limit = elim (Bool-cases (is_container v)) [
    | inl e ↦ rw e (
        search_todo-found (containers v) limit ((v, 0) ∷ []) (omega arith, (e, tt)) (omega arith)
        ∙ ground arith)
    | inr g ↦ let s = scalar v g in rw (g, s.0) (none_found (containers v))
  ]
    where
      none_found : (fuel : ℕ) → search_todo fuel limit [] ≡ ltb limit 0
      none_found zero = ground arith
      none_found (suc fuel) = ground arith
