-- ===== src/Tests/Instances.antt =====
-- Services that meet what the interfaces ask, and the natural numbers as JSON's numbers.
use native.Mathlib.Decide.{ℕ_discrete}
use shikomi.Prelude.{
  ℕ, ◌+◌, ◌-◌, ◌≤◌, ◌≡◌, refl, Bool, true, not, ◌&&◌, ◌==◌, leb, Option, none, some, List, [], ◌∷◌,
  if◌then◌else◌, is_some, arith, map,
}
use shikomi.Json.{Number}
use shikomi.Services.{Table, Jobs, revise, matched, unless, among}
use shikomi.Submission.{Mode}
use shikomi.Services.Redis.{Redis, Key, key_eq, Entry, read, increased, with_expiry}

pub nat_eq_refl : (a : ℕ) → (a == a) ≡ true
nat_eq_refl a = ground arith

pub nat_eq_sym : (a b : ℕ) → (a == b) ≡ (b == a)
nat_eq_sym a b = ground arith

pub nat_eq_trans : (a b c : ℕ) → (a == b) ≡ true → (b == c) ≡ true → (a == c) ≡ true
nat_eq_trans a b c p q = ground arith

pub nat_eq-of_ℕ : (a b : ℕ) → (a == b) ≡ (a == b)
nat_eq-of_ℕ a b = refl

abbrev pub numbers : Number
numbers = record {
  N = ℕ;
  eq = λ a b. a == b;
  eq_refl = nat_eq_refl;
  eq_sym = nat_eq_sym;
  eq_trans = nat_eq_trans;
  fits = λ a. true;
  within = λ a b eps. some (leb (a - b) eps && leb (b - a) eps);
  add = λ a b. a + b;
  round3 = λ a. a;
  of_ℕ = λ n. n;
  eq-of_ℕ = nat_eq-of_ℕ;
}

-- A cache is the function of what each key was last given.
abbrev pub Cache : Type 0
Cache = Key → Option Entry

abbrev look : Cache → ℕ → Key → Option Entry
look s now k = read now (s k)

abbrev put : ℕ → Key → ℕ → ℕ → Cache → Cache
put now k v ttl s j =
    if key_eq k j then some (record { value = v; expires = some (now + ttl) }) else s j

abbrev put_new : ℕ → Key → ℕ → ℕ → Cache → Bool × Cache
put_new now k v ttl s =
    (not (is_some (look s now k)), if is_some (look s now k) then s else put now k v ttl s)

abbrev drop_key : ℕ → Key → Cache → Cache
drop_key now k s j = if key_eq k j then none else s j

abbrev bump : ℕ → Key → Cache → Cache
bump now k s j = if key_eq k j then some (increased (look s now k)) else s j

abbrev arm : ℕ → Key → ℕ → Cache → Cache
arm now k ttl s j = if key_eq k j then with_expiry (now + ttl) (look s now k) else s j

pub read-read : (now t : ℕ) (o : Option Entry) → now ≤ t → read t o ≡ read t (read now o)
read-read now t none h = refl
read-read now t (some e) h = ground arith

pub look-put :
    (s : Cache) (now v ttl : ℕ) (k j : Key)
    → look (put now k v ttl s) now j ≡ (
        if key_eq k j
        then read now (some (record { value = v; expires = some (now + ttl) }))
        else look s now j)
look-put s now v ttl k j = ground arith

pub look-put_new :
    (s : Cache) (now v ttl : ℕ) (k j : Key)
    → look (put_new now k v ttl s).1 now j
      ≡ (if is_some (look s now k) then look s now j else look (put now k v ttl s) now j)
look-put_new s now v ttl k j = ground arith

pub look-drop_key :
    (s : Cache) (now : ℕ) (k j : Key)
    → look (drop_key now k s) now j ≡ (if key_eq k j then none else look s now j)
look-drop_key s now k j = ground arith

read-increased :
    (now : ℕ) (o : Option Entry)
    → read now (some (increased (read now o))) ≡ some (increased (read now o))
read-increased now none = refl
read-increased now (some e) = ground arith

pub look-bump :
    (s : Cache) (now : ℕ) (k j : Key)
    → look (bump now k s) now j
      ≡ (if key_eq k j then some (increased (look s now k)) else look s now j)
look-bump s now k j = ground (arith, read-increased now (s k))

pub look-arm :
    (s : Cache) (now ttl : ℕ) (k j : Key)
    → look (arm now k ttl s) now j
      ≡ (if key_eq k j then read now (with_expiry (now + ttl) (look s now k)) else look s now j)
look-arm s now ttl k j = ground arith

abbrev pub cache : Redis
cache = record {
  Store = Cache;
  entry = look;
  set_ex = put;
  set_nx_ex = put_new;
  delete = drop_key;
  incr = bump;
  expire = arm;
  entry-later = λ s now t k h. read-read now t (s k) h;
  entry-set_ex = look-put;
  set_nx_ex_lem = λ s now v ttl k. refl;
  entry-set_nx_ex = look-put_new;
  entry-delete = look-drop_key;
  entry-incr = look-bump;
  entry-expire = look-arm;
}

-- A table is the list of the ids that were inserted, and the row of each.
abbrev pub Rows : Type 0 → Type 0
Rows Row = List ℕ × (ℕ → Option Row)

module _ {Row : Type 0} where
  abbrev row_at : Rows Row → ℕ → Option Row
  row_at s j = if among j s.0 then s.1 j else none

  abbrev add_row : ℕ → Row → Rows Row → Rows Row
  add_row k r s = (k ∷ s.0, λ j. if k == j then some r else row_at s j)

  abbrev revise_row : ℕ → (Row → Bool) → (Row → Row) → Rows Row → ℕ × Rows Row
  revise_row k p f s =
      (matched p (row_at s k), (s.0, λ j. if k == j then revise p f (row_at s j) else row_at s j))

  abbrev chosen : (Row → Bool) → Rows Row → List ℕ → List ℕ
  chosen p s [] = []
  chosen p s (k ∷ ks) = if matched p (row_at s k) == 1 then k ∷ chosen p s ks else chosen p s ks

  among-chosen :
      (j : ℕ) (p : Row → Bool) (s : Rows Row) (ks : List ℕ)
      → among j (chosen p s ks) ≡ (among j ks && matched p (row_at s j) == 1)
  among-chosen j p s [] = refl
  among-chosen j p s (k ∷ ks) = elim (ℕ_discrete k j) [
    | yes e ↦ rw e (ground (arith, among-chosen j p s ks))
    | no ne ↦ ground (arith, among-chosen j p s ks)
  ]

  pub mem-chosen :
      (j : ℕ) (p : Row → Bool) (s : Rows Row)
      → among j (chosen p s s.0) ≡ (matched p (row_at s j) == 1)
  mem-chosen j p s = ground (arith, among-chosen j p s s.0)

  pub row_at-add_row :
      (k j : ℕ) (r : Row) (s : Rows Row)
      → row_at (add_row k r s) j ≡ (if k == j then some r else row_at s j)
  row_at-add_row k j r s = ground arith

  pub row_at-revise_row :
      (k j : ℕ) (p : Row → Bool) (f : Row → Row) (s : Rows Row)
      → row_at (revise_row k p f s).1 j ≡ (if k == j then revise p f (row_at s j) else row_at s j)
  row_at-revise_row k j p f s = ground arith

  abbrev revise_rows : (Row → Bool) → (Row → Row) → Rows Row → Rows Row
  revise_rows p f s = (s.0, λ j. revise p f (row_at s j))

  pub row_at-revise_rows :
      (j : ℕ) (p : Row → Bool) (f : Row → Row) (s : Rows Row)
      → row_at (revise_rows p f s) j ≡ revise p f (row_at s j)
  row_at-revise_rows j p f s = ground arith

  abbrev drop_rows : (Row → Bool) → Rows Row → Rows Row
  drop_rows p s = (s.0, λ j. unless p (row_at s j))

  pub row_at-drop_rows :
      (j : ℕ) (p : Row → Bool) (s : Rows Row) → row_at (drop_rows p s) j ≡ unless p (row_at s j)
  row_at-drop_rows j p s = ground arith

  abbrev pub table : Table Row
  table = record {
    State = Rows Row;
    find = row_at;
    insert = add_row;
    update = revise_row;
    update_all = revise_rows;
    delete_all = drop_rows;
    select = λ p s. chosen p s s.0;
    mem-select = mem-chosen;
    find-insert = row_at-add_row;
    count-update = λ k p f s. refl;
    find-update = row_at-revise_row;
    find-update_all = row_at-revise_rows;
    find-delete_all = row_at-drop_rows;
  }

abbrev pub jobs : Jobs Mode
jobs = record {
  State = List (ℕ × Mode);
  known = λ s j. among j (map (λ x. x.0) s);
  enqueue = λ i m s. (i, m) ∷ s;
  known-enqueue = λ i j m s. refl;
}
