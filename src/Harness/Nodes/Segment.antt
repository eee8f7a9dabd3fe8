-- ===== src/Harness/Nodes/Segment.antt =====
-- Objects that lie one after another in a heap, and the loops of the builders over them.
use shikomi.Prelude.{
  and_then, ◌<◌, ◌==◌, &&-eq-true, all_of, Bool, true, false, ap₂, ℕ, zero, suc, ◌+◌, ◌≡◌, refl, ap,
  ◌∙◌, some, List, [], ◌∷◌, ◌++◌, map, length, get_elem?, arith, length-append, ◌<◌, ◌==◌, sym,
}
use mathlib.Core.List.{append_assoc}
use mathlib.Core.Option.{none-ne-some, some-injective}
use shikomi.Harness.Nodes.{index_from, Object, Heap, modify, for_each, addresses, index_from}

pub suc_add : (m n : ℕ) → suc m + n ≡ suc (m + n)
suc_add m n = omega arith

pub add_suc : (m n : ℕ) → suc m + n ≡ m + suc n
add_suc m n = omega arith

pub get_elem?-append {ℓ} :
    {A : Type ℓ} (xs ys : List A) (i : ℕ) → get_elem? (xs ++ ys) (length xs + i) ≡ get_elem? ys i
get_elem?-append [] ys i = ap (get_elem? ys) (omega arith)
get_elem?-append (x ∷ xs) ys i =
    ap (get_elem? (x ∷ xs ++ ys)) (suc_add (length xs) i) ∙ get_elem?-append xs ys i

-- A list with each element changed, from index `i`.
abbrev pub map_from {ℓ ℓ'} : {A : Type ℓ} {B : Type ℓ'} → (ℕ → A → B) → ℕ → List A → List B
map_from f i [] = []
map_from f i (x ∷ xs) = f i x ∷ map_from f (suc i) xs

pub get_elem?-map_from {ℓ ℓ'} :
    {A : Type ℓ} {B : Type ℓ'} (f : ℕ → A → B) (i : ℕ) (xs : List A) (j : ℕ)
    → get_elem? (map_from f i xs) j ≡ and_then (get_elem? xs j) (λ x. some (f (i + j) x))
get_elem?-map_from f i [] j = refl
get_elem?-map_from f i (x ∷ xs) zero = ap (λ j. some (f j x)) (omega arith)
get_elem?-map_from f i (x ∷ xs) (suc j) =
    get_elem?-map_from f (suc i) xs j
    ∙ ap (λ n. and_then (get_elem? xs j) (λ y. some (f n y))) (add_suc i j)

pub zero_add : (n : ℕ) → 0 + n ≡ n
zero_add n = omega arith

pub add_zero : (m : ℕ) → m ≡ m + 0
add_zero m = omega arith

-- A function of the addresses that reads each element at its address.
pub map-addresses {ℓ} :
    {A : Type ℓ} (f : ℕ → A) (k : ℕ) (xs : List A)
    → ((i : ℕ) (x : A) → get_elem? xs i ≡ some x → f (k + i) ≡ x)
    → map f (addresses k xs) ≡ xs
map-addresses f k [] at = refl
map-addresses f k (x ∷ xs) at =
    ap₂ (λ y ys. y ∷ ys) (ap f (add_zero k) ∙ at 0 x refl)
      (map-addresses f (suc k) xs (λ i y e. ap f (add_suc k i) ∙ at (suc i) y e))

pub get_elem?-map_from_zero {ℓ ℓ'} :
    {A : Type ℓ} {B : Type ℓ'} (f : ℕ → A → B) (xs : List A) (j : ℕ)
    → get_elem? (map_from f 0 xs) j ≡ and_then (get_elem? xs j) (λ x. some (f j x))
get_elem?-map_from_zero f xs j =
    get_elem?-map_from f 0 xs j
    ∙ ap (λ n. and_then (get_elem? xs j) (λ x. some (f n x))) (zero_add j)

pub length-map_from {ℓ ℓ'} :
    {A : Type ℓ} {B : Type ℓ'} (f : ℕ → A → B) (i : ℕ) (xs : List A)
    → length (map_from f i xs) ≡ length xs
length-map_from f i [] = refl
length-map_from f i (x ∷ xs) = ap suc (length-map_from f (suc i) xs)

pub get_elem?-map {ℓ ℓ'} :
    {A : Type ℓ} {B : Type ℓ'} (f : A → B) (xs : List A) (i : ℕ)
    → get_elem? (map f xs) i ≡ and_then (get_elem? xs i) (λ x. some (f x))
get_elem?-map f [] i = refl
get_elem?-map f (x ∷ xs) zero = refl
get_elem?-map f (x ∷ xs) (suc i) = get_elem?-map f xs i

pub get_elem?-some {ℓ} :
    {A : Type ℓ} (xs : List A) (i : ℕ) → i < length xs → (x : A) × (get_elem? xs i ≡ some x)
get_elem?-some [] i l = absurd (omega (arith, l))
get_elem?-some (x ∷ xs) zero l = (x, refl)
get_elem?-some (x ∷ xs) (suc i) l = get_elem?-some xs i (omega (arith, l))

pub all_of-get_elem? {ℓ} :
    {A : Type ℓ} (p : A → Bool) (xs : List A) (i : ℕ) (x : A)
    → all_of p xs ≡ true
    → get_elem? xs i ≡ some x
    → p x ≡ true
all_of-get_elem? p [] i x a e = absurd (none-ne-some x e)
all_of-get_elem? p (y ∷ xs) zero x a e =
    ap p (sym (some-injective y x e)) ∙ (&&-eq-true (p y) (all_of p xs) a).0
all_of-get_elem? p (y ∷ xs) (suc i) x a e =
    all_of-get_elem? p xs i x (&&-eq-true (p y) (all_of p xs) a).1 e

pub get_elem?-addresses {ℓ} :
    {A : Type ℓ} (k : ℕ) (xs : List A) (j : ℕ)
    → j < length xs
    → get_elem? (addresses k xs) j ≡ some (k + j)
get_elem?-addresses k [] j l = absurd (omega (arith, l))
get_elem?-addresses k (x ∷ xs) zero l = ap some (add_zero k)
get_elem?-addresses k (x ∷ xs) (suc j) l =
    get_elem?-addresses (suc k) xs j (omega (arith, l)) ∙ ap some (add_suc k j)

at_start : (k : ℕ) → (k == k + 0) ≡ true
at_start k = ground arith

past_start : (k j : ℕ) → (k == k + suc j) ≡ false
past_start k j = ground arith

pub index_from-addresses {ℓ} :
    {A : Type ℓ} (i k : ℕ) (xs : List A) (j : ℕ)
    → j < length xs
    → index_from i (addresses k xs) (k + j) ≡ some (i + j)
index_from-addresses i k [] j l = absurd (omega (arith, l))
index_from-addresses i k (x ∷ xs) zero l = rw (at_start k) (ap some (add_zero i))
index_from-addresses i k (x ∷ xs) (suc j) l = rw (past_start k j) (
    ap (index_from (suc i) (addresses (suc k) xs)) (sym (add_suc k j))
    ∙ index_from-addresses (suc i) (suc k) xs j (omega (arith, l))
    ∙ ap some (add_suc i j))

module _ {N : Type 0} where
  pub modify-append :
      (h : Heap N) (f : Object N → Object N) (o : Object N) (os : Heap N)
      → modify (length h) f (h ++ (o ∷ os)) ≡ h ++ (f o ∷ os)
  modify-append [] f o os = refl
  modify-append (x ∷ h) f o os = ap (λ g. x ∷ g) (modify-append h f o os)

  pub length-snoc : (h : Heap N) (o : Object N) → suc (length h) ≡ length (h ++ (o ∷ []))
  length-snoc h o = omega (arith, length-append h (o ∷ []))

  pub for_each-addresses {ℓ} :
      {A : Type ℓ} (f : ℕ → Object N → Object N) (i : ℕ) (h : Heap N) (xs : List A) (os : Heap N)
      → length xs ≡ length os
      → for_each f i (addresses (length h) xs) (h ++ os) ≡ h ++ map_from f i os
  for_each-addresses f i h [] [] l = refl
  for_each-addresses f i h [] (o ∷ os) l = absurd (omega (arith, l))
  for_each-addresses f i h (x ∷ xs) [] l = absurd (omega (arith, l))
  for_each-addresses f i h (x ∷ xs) (o ∷ os) l =
      let g = h ++ (f i o ∷ []) in
      ap (for_each f (suc i) (addresses (suc (length h)) xs))
        (modify-append h (f i) o os ∙ sym (append_assoc h (f i o ∷ []) os))
      ∙ ap (λ n. for_each f (suc i) (addresses n xs) (g ++ os)) (length-snoc h (f i o))
      ∙ for_each-addresses f (suc i) g xs os (omega (arith, l))
      ∙ append_assoc h (f i o ∷ []) (map_from f (suc i) os)
