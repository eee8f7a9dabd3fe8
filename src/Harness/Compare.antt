-- ===== src/Harness/Compare.antt =====
-- The comparison modes of judge/harness.py: `_json_equal`, `_float_equal`, `_hashable_key`,
-- `_multiset_equal` and `compare`, on values that came through JSON.
pub mod Hashing
pub mod Modes
pub mod Total
use Prim.Native.String.{String}
use shikomi.Prelude.{
  ℕ, suc, Bool, true, false, ◌&&◌, ◌||◌, ◌==◌, Option, none, some, List, [], ◌∷◌, if◌then◌else◌,
  is_some, length, any_of,
}
use shikomi.Prelude.Text.{str_eq}
use shikomi.Json.{
  Number, Json, null, bool, num, str, arr, obj, Items, nil, cons, Fields, end, field, to_list, get,
}
use shikomi.Harness.Multiset.{remove_all, counters_equal}

abbrev pub bool_eq : Bool → Bool → Bool
bool_eq true b = b
bool_eq false true = false
bool_eq false false = true

module _ {N : Type 0} where
  abbrev pub key_count : Fields N → ℕ
  key_count end = 0
  key_count (field k v fs) = suc (key_count fs)

  abbrev pub keys_among : Fields N → Fields N → Bool
  keys_among end b = true
  keys_among (field k v fs) b = is_some (get k b) && keys_among fs b

  -- `a.keys() == b.keys()`, two sets of one size with one inside the other
  abbrev pub keys_equal : Fields N → Fields N → Bool
  keys_equal a b = key_count a == key_count b && keys_among a b

module _ (number : Number) where
  open number use {N}

  -- `_json_equal`: a bool equals no number, lists go item by item, objects key by key.
  unfoldable mutual
    pub json_equal : Json N → Json N → Bool
    json_equal null null = true
    json_equal (bool a) (bool b) = bool_eq a b
    json_equal (num a) (num b) = number.eq a b
    json_equal (str a) (str b) = str_eq a b
    json_equal (arr xs) (arr ys) = items_equal xs ys
    json_equal (obj a) (obj b) = keys_equal a b && values_equal a b
    json_equal _ _ = false

    pub items_equal : Items N → Items N → Bool
    items_equal nil nil = true
    items_equal (cons x xs) (cons y ys) = json_equal x y && items_equal xs ys
    items_equal _ _ = false

    pub values_equal : Fields N → Fields N → Bool
    values_equal end b = true
    values_equal (field k v fs) b =
        elim (get k b) [ none ↦ false | some w ↦ json_equal v w ] && values_equal fs b

  -- `and` of two tests that may raise
  abbrev pub and_also : Option Bool → Option Bool → Option Bool
  and_also (some true) b = b
  and_also (some false) b = some false
  and_also none b = none

  -- `_float_equal`: numbers within `eps`, lists of one length item by item, all else by `_json_equal`;
  -- `none` is an `OverflowError`. No number is NaN, so the test for two of them only asks for `a`.
  unfoldable mutual
    unfolding json_equal

    pub float_equal : N → Json N → Json N → Option Bool
    float_equal eps (num a) (num b) =
        if number.fits a then (if number.eq a b then some true else number.within a b eps) else none
    float_equal eps (arr xs) (arr ys) =
        let close = items_close eps xs ys in
        if length (to_list xs) == length (to_list ys) then close else some false
    float_equal eps a b = some (json_equal a b)

    pub items_close : N → Items N → Items N → Option Bool
    items_close eps (cons x xs) (cons y ys) = and_also (float_equal eps x y) (items_close eps xs ys)
    items_close eps _ _ = some true

-- What `_hashable_key` returns for a value that can be hashed.
mutual
  pub data Key (N : Type 0) : Type 0 where
    tagged : Bool → Key N
    tuple : Keys N → Key N
    none_key : Key N
    num_key : N → Key N
    str_key : String → Key N

  pub data Keys (N : Type 0) : Type 0 where
    no_keys : Keys N
    key : Key N → Keys N → Keys N

abbrev pub cons_some {ℓ} : {A : Type ℓ} → Option A → Option (List A) → Option (List A)
cons_some (some k) (some ks) = some (k ∷ ks)
cons_some none _ = none
cons_some (some k) none = none

module _ {N : Type 0} where
  abbrev pub tuple_of : Option (Keys N) → Option (Key N)
  tuple_of none = none
  tuple_of (some ks) = some (tuple ks)

  abbrev pub join_keys : Option (Key N) → Option (Keys N) → Option (Keys N)
  join_keys (some k) (some ks) = some (key k ks)
  join_keys none _ = none
  join_keys (some k) none = none

  -- `_hashable_key`, with the `TypeError` of hashing its result: `none` where a dict is inside.
  unfoldable mutual
    pub hashable_key : Json N → Option (Key N)
    hashable_key (bool b) = some (tagged b)
    hashable_key (arr xs) = tuple_of (hashable_keys xs)
    hashable_key null = some none_key
    hashable_key (num a) = some (num_key a)
    hashable_key (str s) = some (str_key s)
    hashable_key (obj fs) = none

    pub hashable_keys : Items N → Option (Keys N)
    hashable_keys nil = some no_keys
    hashable_keys (cons x xs) = join_keys (hashable_key x) (hashable_keys xs)

  -- The keys that the generator `_hashable_key(x) for x in a` feeds to `Counter`.
  unfoldable pub counter_keys : List (Json N) → Option (List (Key N))
  unfolding hashable_key
  counter_keys [] = some []
  counter_keys (x ∷ xs) = cons_some (hashable_key x) (counter_keys xs)

module _ (number : Number) where
  open number use {N}

  -- Python's `==` on such keys; the private tag equals only itself.
  unfoldable mutual
    pub key_eq : Key N → Key N → Bool
    key_eq (tagged a) (tagged b) = bool_eq a b
    key_eq (tuple ks) (tuple ls) = keys_eq ks ls
    key_eq none_key none_key = true
    key_eq (num_key a) (num_key b) = number.eq a b
    key_eq (str_key a) (str_key b) = str_eq a b
    key_eq _ _ = false

    pub keys_eq : Keys N → Keys N → Bool
    keys_eq no_keys no_keys = true
    keys_eq (key k ks) (key l ls) = key_eq k l && keys_eq ks ls
    keys_eq _ _ = false

  -- Both counters when every key could be hashed; else the loop.
  abbrev pub by_counters_or_loop :
      List (Json N) → List (Json N) → Option (List (Key N)) → Option (List (Key N)) → Bool
  by_counters_or_loop xs ys (some ks) (some ls) = counters_equal key_eq ks ls
  by_counters_or_loop xs ys (some ks) none = remove_all (json_equal number) xs ys
  by_counters_or_loop xs ys none _ = remove_all (json_equal number) xs ys

  unfoldable pub multiset_equal : Json N → Json N → Bool
  unfolding json_equal counter_keys key_eq counters_equal remove_all
  multiset_equal (arr xs) (arr ys) =
      if length (to_list xs) == length (to_list ys)
      then by_counters_or_loop (to_list xs) (to_list ys) (counter_keys (to_list xs))
          (counter_keys (to_list ys))
      else false
  multiset_equal a b = json_equal number a b

-- A problem's `comparison`: the mode when it is given, and the tolerance when it is given.
pub record Comparison (N : Type 0) : Type 0 where
  pub mode : Option String
  pub epsilon : Option N

abbrev pub or_default {ℓ} : {A : Type ℓ} → Option A → A → A
or_default none d = d
or_default (some a) d = a

module _ (number : Number) (micro : Number.N number) where
  open number use {N}

  -- `expected if isinstance(expected, list) else [expected]`
  abbrev pub candidates : Json N → List (Json N)
  candidates (arr xs) = to_list xs
  candidates v = v ∷ []

  -- `compare`, with `none` where it raises; `micro` is the default tolerance, 1e-6.
  unfoldable pub compare : Json N → Json N → Comparison N → Option Bool
  unfolding multiset_equal float_equal json_equal
  compare actual expected comparison =
      let mode = or_default comparison.mode "exact" in
      if str_eq mode "unordered"
      then some (multiset_equal number actual expected)
      else if str_eq mode "float_tolerance"
      then float_equal number (or_default comparison.epsilon micro) actual expected
      else if str_eq mode "any_of"
      then some (any_of (λ c. json_equal number actual c) (candidates expected))
      else some (json_equal number actual expected)
