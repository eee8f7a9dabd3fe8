-- ===== src/Harness/Compare/Modes.antt =====
-- What the modes of `compare` decide.
use mathlib.Core.Bool.{false≢true}
use shikomi.Prelude.{
  ◌≡◌, refl, sym, ◌∙◌, ◌↔◌, Bool, true, false, ◌==◌, Option, none, some, List, [], ◌∷◌, arith, inl,
  inr, Bool-cases, length, if◌then◌else◌, ==_iff,
}
use shikomi.Json.{Number, Json, null, bool, num, str, arr, Items, nil, cons, to_list}
use shikomi.Harness.Multiset.{
  remove_first, remove_all, keep_head, occurrences, SameCounts, counters_equal_iff,
  counters_equal-remove_all,
}
use shikomi.Harness.Compare.{
  Key, tagged, tuple, none_key, num_key, str_key, Keys, no_keys, key, key_eq, hashable_keys,
  hashable_key, json_equal, counter_keys, cons_some, multiset_equal,
}
use shikomi.Harness.Compare.Hashing.{key_eq_equivalence, key_eq-hashable}

-- The value that a key stands for.
module _ {N : Type 0} where
  mutual
    value_of : Key N → Json N
    value_of (tagged b) = bool b
    value_of (tuple ks) = arr (values_of ks)
    value_of none_key = null
    value_of (num_key a) = num a
    value_of (str_key s) = str s

    values_of : Keys N → Items N
    values_of no_keys = nil
    values_of (key k ks) = cons (value_of k) (values_of ks)

  mutual
    unfolding value_of hashable_key

    hashable_key-value_of : (k : Key N) → hashable_key (value_of k) ≡ some k
    hashable_key-value_of (tagged b) = refl
    hashable_key-value_of (tuple ks) = rw (hashable_keys-values_of ks)
    hashable_key-value_of none_key = refl
    hashable_key-value_of (num_key a) = refl
    hashable_key-value_of (str_key s) = refl

    hashable_keys-values_of : (ks : Keys N) → hashable_keys (values_of ks) ≡ some ks
    hashable_keys-values_of no_keys = refl
    hashable_keys-values_of (key k ks) = rw (hashable_key-value_of k, hashable_keys-values_of ks)

cons_some_inv {ℓ} :
    {A : Type ℓ} (o : Option A) (p : Option (List A)) (ks : List A)
    → cons_some o p ≡ some ks
    → (k : A) × (ls : List A) × (o ≡ some k) × (p ≡ some ls) × (ks ≡ k ∷ ls)
cons_some_inv (some k) (some ls) ks e = (k, ls, refl, refl, ground arith)
cons_some_inv none p ks e = ground arith
cons_some_inv (some k) none ks e = ground arith

module _ (number : Number) where
  open number use {N}

  -- Removing from the values and removing from their keys go the same way.
  abbrev Agree : Option (List (Json N)) → Option (List (Key N)) → Type 0
  Agree none none = Unit {0}
  Agree (some zs) (some ms) = counter_keys zs ≡ some ms
  Agree none (some ms) = ⊥
  Agree (some zs) none = ⊥

  Agree-keep_head :
      (y : Json N) (l : Key N) (o : Option (List (Json N))) (p : Option (List (Key N)))
      → hashable_key y ≡ some l
      → Agree o p
      → Agree (keep_head y o) (keep_head l p)
  unfolding counter_keys
  Agree-keep_head y l none none e h = tt
  Agree-keep_head y l (some zs) (some ms) e h = rw (e, h)
  Agree-keep_head y l none (some ms) e h = h
  Agree-keep_head y l (some zs) none e h = h

  remove_first-Agree :
      (x : Json N) (k : Key N) (ys : List (Json N)) (ls : List (Key N))
      → hashable_key x ≡ some k
      → counter_keys ys ≡ some ls
      → Agree (remove_first (json_equal number) x ys) (remove_first (key_eq number) k ls)
  unfolding remove_first counter_keys
  remove_first-Agree x k [] [] hx hy = tt
  remove_first-Agree x k [] (l ∷ ls) hx hy = ground arith
  remove_first-Agree x k (y ∷ ys) ls hx hy =
      let (l, ms, a, b, c) = cons_some_inv (hashable_key y) (counter_keys ys) ls hy in
      rw c (step l ms a b (key_eq-hashable number y x l k a hx) (remove_first-Agree x k ys ms hx b))
    where
      step :
          (l : Key N) (ms : List (Key N))
          → hashable_key y ≡ some l
          → counter_keys ys ≡ some ms
          → key_eq number l k ≡ json_equal number y x
          → Agree (remove_first (json_equal number) x ys) (remove_first (key_eq number) k ms)
          → Agree
              (remove_first (json_equal number) x (y ∷ ys))
              (remove_first (key_eq number) k (l ∷ ms))
      step l ms a b e ih = elim (Bool-cases (json_equal number y x)) [
        | inl t ↦ rw (remove_first, e, t) b
        | inr f ↦ rw (remove_first, e, f) (Agree-keep_head y l _ _ a ih)
      ]

  abbrev after {ℓ} : {A : Type ℓ} → Option A → (A → Bool) → Bool
  after o f = elim o [ none ↦ false | some zs ↦ f zs ]

  after-Agree :
      (f : List (Json N) → Bool) (g : List (Key N) → Bool) (o : Option (List (Json N)))
      (p : Option (List (Key N)))
      → Agree o p
      → ((zs : List (Json N)) (ms : List (Key N)) → counter_keys zs ≡ some ms → f zs ≡ g ms)
      → after o f ≡ after p g
  after-Agree f g none none a h = refl
  after-Agree f g (some zs) (some ms) a h = h zs ms a
  after-Agree f g none (some ms) a h = absurd a
  after-Agree f g (some zs) none a h = absurd a

  remove_all-keys :
      (xs ys : List (Json N)) (ks ls : List (Key N))
      → counter_keys xs ≡ some ks
      → counter_keys ys ≡ some ls
      → remove_all (json_equal number) xs ys ≡ remove_all (key_eq number) ks ls
  unfolding remove_all counter_keys
  remove_all-keys [] ys ks ls p q = ground arith
  remove_all-keys (x ∷ xs) ys ks ls p q =
      let (k, ms, a, b, c) = cons_some_inv (hashable_key x) (counter_keys xs) ks p in
      rw c (
        after-Agree (remove_all (json_equal number) xs) (remove_all (key_eq number) ms)
          (remove_first (json_equal number) x ys) (remove_first (key_eq number) k ls)
          (remove_first-Agree x k ys ls a q) (λ zs ns h. remove_all-keys xs zs ms ns b h))

  length-counter_keys :
      (xs : List (Json N)) (ks : List (Key N)) → counter_keys xs ≡ some ks → length ks ≡ length xs
  unfolding counter_keys
  length-counter_keys [] ks p = ground arith
  length-counter_keys (x ∷ xs) ks p =
      let (k, ms, a, b, c) = cons_some_inv (hashable_key x) (counter_keys xs) ks p in
      rw c (omega (arith, length-counter_keys xs ms b))

  occurrences-keys :
      (z : Json N) (k : Key N) (xs : List (Json N)) (ks : List (Key N))
      → hashable_key z ≡ some k
      → counter_keys xs ≡ some ks
      → occurrences (key_eq number) k ks ≡ occurrences (json_equal number) z xs
  unfolding counter_keys
  occurrences-keys z k [] ks e p = ground arith
  occurrences-keys z k (x ∷ xs) ks e p =
      let (l, ms, a, b, c) = cons_some_inv (hashable_key x) (counter_keys xs) ks p in
      rw c (ground (arith, key_eq-hashable number z x k l e a, occurrences-keys z k xs ms e b))

  module _ (xs ys : Items N) (ks ls : List (Key N)) (hx : counter_keys (to_list xs) ≡ some ks)
      (hy : counter_keys (to_list ys) ≡ some ls) where
    same_length : length (to_list xs) ≡ length (to_list ys) → length ks ≡ length ls
    same_length e =
        omega
          (arith, length-counter_keys (to_list xs) ks hx, length-counter_keys (to_list ys) ls hy)

    -- Where every item can be hashed, the counters of `_multiset_equal` give the answer of the slow
    -- loop that they replace.
    pub multiset_equal-remove_all : multiset_equal number (arr xs) (arr ys) ≡ (
        if length (to_list xs) == length (to_list ys)
        then remove_all (json_equal number) (to_list xs) (to_list ys)
        else false)
    unfolding multiset_equal
    multiset_equal-remove_all = elim (Bool-cases (length (to_list xs) == length (to_list ys))) [
      | inl t ↦
          rw (t, hx, hy)
            (counters_equal-remove_all (key_eq number) (key_eq_equivalence number) ks ls
                (same_length ((==_iff _ _).0 t))
              ∙ sym (remove_all-keys (to_list xs) (to_list ys) ks ls hx hy))
      | inr f ↦ rw f
    ]

    to_keys :
        ((z : Json N) (k : Key N)
          → hashable_key z ≡ some k
          → occurrences (json_equal number) z (to_list xs)
            ≡ occurrences (json_equal number) z (to_list ys))
        → SameCounts (key_eq number) (key_eq_equivalence number) ks ls
    to_keys h k =
        let e = hashable_key-value_of k in
        occurrences-keys (value_of k) k (to_list xs) ks e hx
        ∙ h (value_of k) k e
        ∙ sym (occurrences-keys (value_of k) k (to_list ys) ls e hy)

    to_values :
        SameCounts (key_eq number) (key_eq_equivalence number) ks ls
        → (z : Json N) (k : Key N) → hashable_key z ≡ some k
        → occurrences (json_equal number) z (to_list xs)
          ≡ occurrences (json_equal number) z (to_list ys)
    to_values s z k e =
        sym (occurrences-keys z k (to_list xs) ks e hx)
        ∙ s k
        ∙ occurrences-keys z k (to_list ys) ls e hy

    -- In `unordered` mode two lists whose items can be hashed pass exactly when they are of one
    -- length and every value that can be hashed occurs as often in both.
    pub multiset_equal_iff : (multiset_equal number (arr xs) (arr ys) ≡ true) ↔ (
        (length (to_list xs) ≡ length (to_list ys))
        × ((z : Json N) (k : Key N)
            → hashable_key z ≡ some k
            → occurrences (json_equal number) z (to_list xs)
              ≡ occurrences (json_equal number) z (to_list ys)))
    unfolding multiset_equal
    multiset_equal_iff = elim (Bool-cases (length (to_list xs) == length (to_list ys))) [
      | inl t ↦
          rw (t, hx, hy)
            (
              λ e. (
                (==_iff _ _).0 t,
                to_values
                    ((counters_equal_iff (key_eq number) (key_eq_equivalence number) ks ls).0 e),
              ),
              λ p.
                  (counters_equal_iff (key_eq number) (key_eq_equivalence number) ks ls).1
                    (to_keys p.1),
            )
      | inr f ↦
          rw f (λ e. absurd (false≢true e), λ p. absurd (false≢true (sym f ∙ (==_iff _ _).1 p.0)))
    ]
