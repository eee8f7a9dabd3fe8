-- ===== src/Harness/Compare/Hashing.antt =====
-- The keys of `_hashable_key`: they are equal exactly when the values are, and their equality is
-- an equivalence, so that counting them is right.
use Prim.Native.String.{String}
use shikomi.Prelude.{
  ◌≡◌, refl, Bool, true, false, ◌&&◌, Option, none, some, arith, ap₂, &&-eq-true, &&-intro,
}
use shikomi.Prelude.Text.{str_eq, eq_iff}
use shikomi.Json.{Number, Json, null, bool, num, str, arr, obj, Items, nil, cons}
use shikomi.Harness.Multiset.{Equivalence}
use shikomi.Harness.Compare.{
  Key, tagged, tuple, none_key, num_key, str_key, Keys, no_keys, key, key_eq, keys_eq, bool_eq,
  hashable_key, hashable_keys, json_equal, items_equal, tuple_of, join_keys,
}

str_eq_refl : (a : String) → str_eq a a ≡ true
str_eq_refl a = (eq_iff a a).1 refl

module _ (number : Number) where
  open number use {N}

  mutual
    unfolding key_eq

    key_eq_refl : (a : Key N) → key_eq number a a ≡ true
    key_eq_refl (tagged true) = refl
    key_eq_refl (tagged false) = refl
    key_eq_refl (tuple ks) = keys_eq_refl ks
    key_eq_refl none_key = refl
    key_eq_refl (num_key a) = number.eq_refl a
    key_eq_refl (str_key a) = str_eq_refl a

    keys_eq_refl : (a : Keys N) → keys_eq number a a ≡ true
    keys_eq_refl no_keys = refl
    keys_eq_refl (key k ks) = ground (arith, key_eq_refl k, keys_eq_refl ks)

  bool_eq_sym : (a b : Bool) → bool_eq a b ≡ bool_eq b a
  bool_eq_sym a b = ground arith

  str_eq_sym : (a b : String) → str_eq a b ≡ str_eq b a
  str_eq_sym a b = ground (arith, eq_iff a b, eq_iff b a)

  mutual
    unfolding key_eq

    key_eq_sym : (a b : Key N) → key_eq number a b ≡ key_eq number b a
    key_eq_sym (tagged a) (tagged b) = bool_eq_sym a b
    key_eq_sym (tuple a) (tuple b) = keys_eq_sym a b
    key_eq_sym (num_key a) (num_key b) = number.eq_sym a b
    key_eq_sym (str_key a) (str_key b) = str_eq_sym a b
    key_eq_sym none_key none_key = refl
    key_eq_sym _ _ = refl

    keys_eq_sym : (a b : Keys N) → keys_eq number a b ≡ keys_eq number b a
    keys_eq_sym (key k ks) (key l ls) = ground (arith, key_eq_sym k l, keys_eq_sym ks ls)
    keys_eq_sym no_keys no_keys = refl
    keys_eq_sym no_keys (key l ls) = refl
    keys_eq_sym (key k ks) no_keys = refl

  mutual
    unfolding key_eq

    key_eq_trans :
        (a b c : Key N)
        → key_eq number a b ≡ true
        → key_eq number b c ≡ true
        → key_eq number a c ≡ true
    key_eq_trans (tagged a) (tagged b) (tagged c) p q = ground arith
    key_eq_trans (tuple a) (tuple b) (tuple c) p q = keys_eq_trans a b c p q
    key_eq_trans (num_key a) (num_key b) (num_key c) p q = number.eq_trans a b c p q
    key_eq_trans (str_key a) (str_key b) (str_key c) p q =
        ground (arith, eq_iff a b, eq_iff b c, eq_iff a c)
    key_eq_trans none_key none_key none_key p q = refl
    key_eq_trans _ _ _ p q = ground arith

    keys_eq_trans :
        (a b c : Keys N)
        → keys_eq number a b ≡ true
        → keys_eq number b c ≡ true
        → keys_eq number a c ≡ true
    keys_eq_trans (key k ks) (key l ls) (key m ms) p q =
        &&-intro _ _ (key_eq_trans k l m (&&-eq-true _ _ p).0 (&&-eq-true _ _ q).0)
          (keys_eq_trans ks ls ms (&&-eq-true _ _ p).1 (&&-eq-true _ _ q).1)
    keys_eq_trans no_keys no_keys no_keys p q = refl
    keys_eq_trans _ _ _ p q = ground arith

  pub key_eq_equivalence : Equivalence (key_eq number)
  key_eq_equivalence = record {
    eq_refl = key_eq_refl;
    eq_sym = key_eq_sym;
    eq_trans = key_eq_trans;
  }

  tuple_inv :
      (o : Option (Keys N)) (k : Key N)
      → tuple_of o ≡ some k
      → (ks : Keys N) × (o ≡ some ks) × (k ≡ tuple ks)
  tuple_inv none k e = ground arith
  tuple_inv (some ks) k e = (ks, refl, ground arith)

  join_inv :
      (o : Option (Key N)) (p : Option (Keys N)) (ks : Keys N)
      → join_keys o p ≡ some ks
      → (k : Key N) × (ls : Keys N) × (o ≡ some k) × (p ≡ some ls) × (ks ≡ key k ls)
  join_inv (some k) (some ls) ks e = (k, ls, refl, refl, ground arith)
  join_inv none p ks e = ground arith
  join_inv (some k) none ks e = ground arith

  mutual
    unfolding key_eq json_equal hashable_key

    -- Two values that can be hashed have equal keys exactly when they are equal.
    pub key_eq-hashable :
        (x y : Json N) (k l : Key N)
        → hashable_key x ≡ some k
        → hashable_key y ≡ some l
        → key_eq number k l ≡ json_equal number x y
    key_eq-hashable (arr xs) (arr ys) k l p q =
        let (ks, sk, ek) = tuple_inv (hashable_keys xs) k p in
        let (ls, sl, el) = tuple_inv (hashable_keys ys) l q in
        rw (ek, el) (keys_eq-hashable xs ys ks ls sk sl)
    key_eq-hashable (arr xs) y k l p q = rw ((tuple_inv (hashable_keys xs) k p).2) (ground arith)
    key_eq-hashable null (arr ys) k l p q = rw ((tuple_inv (hashable_keys ys) l q).2) (ground arith)
    key_eq-hashable (bool b) (arr ys) k l p q =
        rw ((tuple_inv (hashable_keys ys) l q).2) (ground arith)
    key_eq-hashable (num a) (arr ys) k l p q =
        rw ((tuple_inv (hashable_keys ys) l q).2) (ground arith)
    key_eq-hashable (str a) (arr ys) k l p q =
        rw ((tuple_inv (hashable_keys ys) l q).2) (ground arith)
    key_eq-hashable (obj a) y k l p q = ground arith
    key_eq-hashable x y k l p q = ground arith

    keys_eq-hashable :
        (xs ys : Items N) (ks ls : Keys N)
        → hashable_keys xs ≡ some ks
        → hashable_keys ys ≡ some ls
        → keys_eq number ks ls ≡ items_equal number xs ys
    keys_eq-hashable (cons x xs) (cons y ys) ks ls p q =
        let (k, ks', a, b, c) = join_inv (hashable_key x) (hashable_keys xs) ks p in
        let (l, ls', d, e, f) = join_inv (hashable_key y) (hashable_keys ys) ls q in
        rw (c, f) (ap₂ ◌&&◌ (key_eq-hashable x y k l a d) (keys_eq-hashable xs ys ks' ls' b e))
    keys_eq-hashable nil nil ks ls p q = ground arith
    keys_eq-hashable nil (cons y ys) ks ls p q =
        rw ((join_inv (hashable_key y) (hashable_keys ys) ls q).4) (ground arith)
    keys_eq-hashable (cons x xs) nil ks ls p q =
        rw ((join_inv (hashable_key x) (hashable_keys xs) ks p).4) (ground arith)
