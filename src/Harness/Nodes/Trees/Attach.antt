-- ===== src/Harness/Nodes/Trees/Attach.antt =====
-- One child that `_build_tree` attaches.
use mathlib.Core.List.{append-nil}
use mathlib.Core.Option.{none-ne-some, some-injective}
use shikomi.Prelude.{
  ==_refl, subst, and_then, ℕ, zero, suc, ◌≡◌, refl, ap, ◌∙◌, sym, ◌==◌, ◌<◌, ◌≤◌, Bool, true,
  false, Option, none, some, List, [], ◌∷◌, ◌++◌, length, length-append, get_elem?, if◌then◌else◌,
  arith, Bool-cases, inl, inr,
}
use shikomi.Json.{Json, null}
use shikomi.Harness.Nodes.{Object, Heap, cell, modify, val_of, val_or_null}
use shikomi.Harness.Nodes.Segment.{get_elem?-some}
use shikomi.Harness.Nodes.Trees.{
  listed, Side, left_side, right_side, same_side, is_null, set_child, child_of, child, attach,
}

zero_apart : (b : ℕ) → (0 == suc b) ≡ false
zero_apart b = ground arith

apart_zero : (a : ℕ) → (suc a == 0) ≡ false
apart_zero a = ground arith

same_suc : (a b : ℕ) → (suc a == suc b) ≡ (a == b)
same_suc a b = ground arith

pub lt_apart : (a b : ℕ) → a < b → (b == a) ≡ false
lt_apart a b l = ground arith

le_of_== : (a b : ℕ) → (a == b) ≡ true → a ≤ b
le_of_== a b t = ground arith

if_same {ℓ} : {A : Type ℓ} (c : Bool) (x : A) → (if c then x else x) ≡ x
if_same true x = refl
if_same false x = refl

same_side_refl : (side : Side) → same_side side side ≡ true
same_side_refl left_side = refl
same_side_refl right_side = refl

-- Addresses in rising order, from `lo` and below `hi`.
abbrev pub Rising : ℕ → List ℕ → ℕ → Type 0
Rising lo [] hi = lo ≤ hi
Rising lo (x ∷ xs) hi = (lo ≤ x) × Rising (suc x) xs hi

Rising-snoc :
    (lo : ℕ) (xs : List ℕ) (hi : ℕ) → Rising lo xs hi → Rising lo (xs ++ (hi ∷ [])) (suc hi)
Rising-snoc lo [] hi r = (r, omega arith)
Rising-snoc lo (x ∷ xs) hi (l, r) = (l, Rising-snoc (suc x) xs hi r)

pub Rising-le : (lo : ℕ) (xs : List ℕ) (hi : ℕ) → Rising lo xs hi → lo ≤ hi
Rising-le lo [] hi r = r
Rising-le lo (x ∷ xs) hi (l, r) = let rest = Rising-le (suc x) xs hi r in omega (arith, l, rest)

module _ {N : Type 0} where
  -- The value of an optional node, `None` where there is none.
  abbrev pub entry_value : Heap N → Option ℕ → Json N
  entry_value h none = null
  entry_value h (some a) = val_of h a

  pub null-is_null : (v : Json N) → is_null v ≡ true → v ≡ null
  null-is_null v t = ground (arith, t)

  abbrev changed : (Object N → Object N) → Option (Object N) → Option (Object N)
  changed f none = none
  changed f (some o) = some (f o)

  length-modify : (a : ℕ) (f : Object N → Object N) (h : Heap N) → length (modify a f h) ≡ length h
  length-modify a f [] = refl
  length-modify zero f (o ∷ h) = refl
  length-modify (suc a) f (o ∷ h) = ap suc (length-modify a f h)

  get_elem?-modify :
      (a : ℕ) (f : Object N → Object N) (h : Heap N) (b : ℕ)
      → get_elem? (modify a f h) b ≡ (if a == b then changed f (get_elem? h b) else get_elem? h b)
  get_elem?-modify a f [] b = sym (if_same (a == b) none)
  get_elem?-modify zero f (o ∷ h) zero = refl
  get_elem?-modify zero f (o ∷ h) (suc b) = rw (zero_apart b) refl
  get_elem?-modify (suc a) f (o ∷ h) zero = rw (apart_zero a) refl
  get_elem?-modify (suc a) f (o ∷ h) (suc b) = rw (same_suc a b) (get_elem?-modify a f h b)

  get_elem?-snoc :
      (h : Heap N) (o : Object N) (b : ℕ)
      → get_elem? (h ++ (o ∷ [])) b ≡ (if length h == b then some o else get_elem? h b)
  get_elem?-snoc [] o zero = refl
  get_elem?-snoc [] o (suc b) = rw (zero_apart b) refl
  get_elem?-snoc (x ∷ h) o zero = rw (apart_zero (length h)) refl
  get_elem?-snoc (x ∷ h) o (suc b) = rw (same_suc (length h) b) (get_elem?-snoc h o b)

  pub get_elem?-none : (h : Heap N) (b : ℕ) → length h ≤ b → get_elem? h b ≡ none
  get_elem?-none [] b l = refl
  get_elem?-none (o ∷ h) zero l = absurd (omega (arith, l))
  get_elem?-none (o ∷ h) (suc b) l = get_elem?-none h b (omega (arith, l))

  child-cell : (side : Side) (v : Json N) → child_of side (cell v) ≡ none
  child-cell left_side v = refl
  child-cell right_side v = refl

  val-if :
      (c : Bool) (v : Json N) (o : Option (Object N))
      → val_or_null (if c then some (cell v) else o) ≡ (if c then v else val_or_null o)
  val-if true v o = refl
  val-if false v o = refl

  -- A new object has no children, as an address past the heap has none.
  pub child-snoc :
      (side : Side) (h : Heap N) (v : Json N) (b : ℕ)
      → child side (h ++ (cell v ∷ [])) b ≡ child side h b
  child-snoc side h v b =
      ap (λ o. and_then o (child_of side)) (get_elem?-snoc h (cell v) b)
      ∙ elim (Bool-cases (length h == b)) [
        | inl t ↦ rw (t, get_elem?-none h b (le_of_== (length h) b t)) (child-cell side v)
        | inr f ↦ rw f refl
      ]

  pub val_of-snoc :
      (h : Heap N) (v : Json N) (b : ℕ)
      → val_of (h ++ (cell v ∷ [])) b ≡ (if length h == b then v else val_of h b)
  val_of-snoc h v b =
      ap val_or_null (get_elem?-snoc h (cell v) b) ∙ val-if (length h == b) v (get_elem? h b)

  child-set_child :
      (side other : Side) (k : ℕ) (o : Option (Object N))
      → and_then (changed (set_child side k) o) (child_of other)
        ≡ (if same_side side other then and_then o (λ o. some k) else and_then o (child_of other))
  child-set_child left_side left_side k none = refl
  child-set_child left_side left_side k (some o) = refl
  child-set_child left_side right_side k none = refl
  child-set_child left_side right_side k (some o) = refl
  child-set_child right_side left_side k none = refl
  child-set_child right_side left_side k (some o) = refl
  child-set_child right_side right_side k none = refl
  child-set_child right_side right_side k (some o) = refl

  val-set_child :
      (side : Side) (k : ℕ) (o : Option (Object N))
      → val_or_null (changed (set_child side k) o) ≡ val_or_null o
  val-set_child left_side k none = refl
  val-set_child left_side k (some o) = refl
  val-set_child right_side k none = refl
  val-set_child right_side k (some o) = refl

  -- What attaching a value to the node at `a` changes.
  pub record IsAttached (side : Side) (a : ℕ) (v : Json N) (h : Heap N) (r : Option ℕ × Heap N)
      : Type 0 where
    pub grows : length h ≤ length r.1
    pub own : child side h a ≡ none → child side r.1 a ≡ r.0
    pub other : (s : Side) → same_side side s ≡ false → child s r.1 a ≡ child s h a
    pub rest : (s : Side) (b : ℕ) → (a == b) ≡ false → child s r.1 b ≡ child s h b
    pub values : (b : ℕ) → b < length h → val_of r.1 b ≡ val_of h b
    pub entry : entry_value r.1 r.0 ≡ v
    pub below : (b : ℕ) → r.0 ≡ some b → a < b
    pub inside : (b : ℕ) → r.0 ≡ some b → b < length r.1
    pub rising :
        (lo : ℕ) (xs : List ℕ) → Rising lo xs (length h) → Rising lo (xs ++ listed r.0) (length r.1)

  module _ (side : Side) (a : ℕ) (v : Json N) (h : Heap N) (l : a < length h) where
    abbrev longer : Heap N
    longer = h ++ (cell v ∷ [])

    abbrev grown : Heap N
    grown = modify a (set_child side (length h)) longer

    length-grown : length grown ≡ suc (length h)
    length-grown =
        length-modify a (set_child side (length h)) longer
        ∙ omega (arith, length-append h (cell v ∷ []))

    child-grown :
        (s : Side) (b : ℕ)
        → child s grown b
          ≡ and_then
              (if a == b
                then changed (set_child side (length h)) (get_elem? longer b)
                else get_elem? longer b)
              (child_of s)
    child-grown s b =
        ap (λ o. and_then o (child_of s)) (get_elem?-modify a (set_child side (length h)) longer b)

    val_of-grown : (b : ℕ) → val_of grown b ≡ val_of longer b
    val_of-grown b =
        ap val_or_null (get_elem?-modify a (set_child side (length h)) longer b)
        ∙ elim (Bool-cases (a == b)) [
          | inl t ↦ rw t (val-set_child side (length h) (get_elem? longer b))
          | inr f ↦ rw f refl
        ]

    pub attach-IsAttached : IsAttached side a v h (attach side a v h)
    attach-IsAttached = pick (is_null v) refl
      where
        pick :
            (b : Bool)
            → is_null v ≡ b
            → IsAttached side a v h (if b then (none, h) else (some (length h), grown))
        pick true t = record {
          grows = omega arith;
          own = λ e. e;
          other = λ s d. refl;
          rest = λ s b d. refl;
          values = λ b m. refl;
          entry = sym (null-is_null v t);
          below = λ b e. absurd (none-ne-some b e);
          inside = λ b e. absurd (none-ne-some b e);
          rising = λ lo xs r. subst (λ ys. Rising lo ys (length h)) (sym (append-nil xs)) r;
        }
        pick false t = record {
          grows = omega (arith, length-grown);
          own = λ e.
              let (o, at) =
                get_elem?-some longer a (omega (arith, l, length-append h (cell v ∷ []))) in
              child-grown side a
              ∙ rw (==_refl a) (
                  child-set_child side side (length h) (get_elem? longer a)
                  ∙ rw (same_side_refl side, at) refl);
          other = λ s d.
              child-grown s a
              ∙ rw (==_refl a) (
                  child-set_child side s (length h) (get_elem? longer a)
                  ∙ rw d (child-snoc s h v a));
          rest = λ s b d. child-grown s b ∙ rw d (child-snoc s h v b);
          values = λ b m. val_of-grown b ∙ val_of-snoc h v b ∙ rw (lt_apart b (length h) m) refl;
          entry =
              val_of-grown (length h) ∙ val_of-snoc h v (length h) ∙ rw (==_refl (length h)) refl;
          below = λ b e. let same = some-injective (length h) b e in omega (arith, same, l);
          inside =
              λ b e. let same = some-injective (length h) b e in omega (arith, same, length-grown);
          rising = λ lo xs r.
              subst (Rising lo (xs ++ (length h ∷ []))) (sym length-grown)
                (Rising-snoc lo xs (length h) r);
        }

  -- The value of an entry that lies in a heap, in a later heap with the same values.
  pub entry_value-kept :
      (g k : Heap N) (c : Option ℕ)
      → ((b : ℕ) → c ≡ some b → b < length g)
      → ((b : ℕ) → b < length g → val_of k b ≡ val_of g b)
      → entry_value k c ≡ entry_value g c
  entry_value-kept g k none inside values = refl
  entry_value-kept g k (some b) inside values = values b (inside b refl)
