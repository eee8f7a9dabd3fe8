-- ===== src/Harness/Nodes/Walk/Ends.antt =====
-- `_walk_next` and `_flatten_list` on a heap of any shape: where the chain of `next` ends, and where
-- it does not.
use shikomi.Prelude.{
  and_then, ℕ, zero, suc, ◌+◌, ◌≡◌, refl, ap, ◌∙◌, sym, Bool, true, false, Option, none, some, List,
  [], ◌∷◌, ◌++◌, map, length, ltb, if◌then◌else◌, arith, ◌<◌, ◌≤◌, ltb→lt, is_some, Bool-cases, inl,
  inr,
}
use mathlib.Core.List.{append_assoc, append-nil}
use mathlib.Core.Option.{none-ne-some}
use shikomi.Services.{among}
use shikomi.Harness.Nodes.{
  Heap, next_of, val_of, is_finished, Encoded, encoded, malformed, unfinished, walk_from, walk_next,
  flatten_list, map_encoded,
}
use shikomi.Harness.Nodes.Unseen.{unseen, unseen-snoc, unseen-le, get_elem?-past}
use shikomi.Harness.Nodes.Segment.{suc_add, zero_add}
use shikomi.Harness.Nodes.Walk.{among-snoc}

plus_one : (p : ℕ) → suc (suc p) ≡ suc p + 1
plus_one p = omega arith

not_below : (a n : ℕ) → ltb a n ≡ false → n ≤ a
not_below a n m = ground arith

module _ {N : Type 0} (h : Heap N) where
  -- `n` steps along `next`; `none` is `None`.
  abbrev pub follow : ℕ → Option ℕ → Option ℕ
  follow zero a = a
  follow (suc n) a = follow n (and_then a (next_of h))

  -- The first `n` objects along `next`.
  abbrev pub path : ℕ → Option ℕ → List ℕ
  path zero a = []
  path (suc n) none = []
  path (suc n) (some a) = a ∷ path n (next_of h a)

  follow-none : (n : ℕ) → follow n none ≡ none
  follow-none zero = refl
  follow-none (suc n) = follow-none n

  follow-add : (m n : ℕ) (a : Option ℕ) → follow (m + n) a ≡ follow n (follow m a)
  follow-add zero n a = ap (λ k. follow k a) (zero_add n)
  follow-add (suc m) n a =
      ap (λ k. follow k a) (suc_add m n) ∙ follow-add m n (and_then a (next_of h))

  -- `k` rounds of `suc p` steps
  abbrev rounds : ℕ → ℕ → ℕ
  rounds p zero = 0
  rounds p (suc k) = suc p + rounds p k

  rounds-long : (p k : ℕ) → (e : ℕ) × (rounds p k ≡ k + e)
  rounds-long p zero = (0, refl)
  rounds-long p (suc k) = let (e, q) = rounds-long p k in (p + e, omega (arith, q))

  follow-rounds :
      (p a k : ℕ) → follow (suc p) (some a) ≡ some a → follow (rounds p k) (some a) ≡ some a
  follow-rounds p a zero c = refl
  follow-rounds p a (suc k) c =
      follow-add (suc p) (rounds p k) (some a) ∙ ap (follow (rounds p k)) c ∙ follow-rounds p a k c

  -- A chain that comes back to an object never ends.
  cycle-lives :
      (p a : ℕ) → follow (suc p) (some a) ≡ some a → (n : ℕ) → is_some (follow n (some a)) ≡ true
  cycle-lives p a c n = lives (follow n (some a)) refl
    where
      lives : (o : Option ℕ) → follow n (some a) ≡ o → is_some o ≡ true
      lives (some b) q = refl
      lives none q =
          let (e, long) = rounds-long p n in
          absurd (
            none-ne-some a (
              sym (follow-none e)
              ∙ ap (follow e) (sym q)
              ∙ sym (follow-add n e (some a))
              ∙ ap (λ k. follow k (some a)) (sym long)
              ∙ follow-rounds p a n c))

  -- What a walk finds from `a`, where `order` are the objects before.
  Outcome : Option ℕ → List ℕ → Encoded (List ℕ) → Type 0
  Outcome a order (encoded l) = (n : ℕ) × (follow n a ≡ none) × (l ≡ order ++ path n a)
  Outcome a order malformed = (n : ℕ) → is_some (follow n a) ≡ true
  Outcome a order unfinished = Unit

  -- Each object before leads to `a`.
  abbrev Leads : List ℕ → Option ℕ → Type 0
  Leads order a = (b : ℕ) → among b order ≡ true → (p : ℕ) × (follow (suc p) (some b) ≡ a)

  Leads-snoc :
      (a : ℕ) (order : List ℕ) → Leads order (some a) → Leads (order ++ (a ∷ [])) (next_of h a)
  Leads-snoc a order leads b t = elim (Bool-cases (among b order)) [
    | inl s ↦
        let (p, q) = leads b s in
        (
          suc p,
          ap (λ k. follow k (some b)) (plus_one p)
              ∙ follow-add (suc p) 1 (some b)
              ∙ ap (follow 1) q,
        )
    | inr g ↦
        let same : a ≡ b = ground (arith, among-snoc b a order) in (0, ap (next_of h) (sym same))
  ]

  extend :
      (a : ℕ) (order : List ℕ) (r : Encoded (List ℕ))
      → Outcome (next_of h a) (order ++ (a ∷ [])) r
      → Outcome (some a) order r
  unfolding Outcome
  extend a order (encoded l) (n, e, q) =
      (suc n, e, q ∙ append_assoc order (a ∷ []) (path n (next_of h a)))
  extend a order malformed f = lives
    where
      lives : (n : ℕ) → is_some (follow n (some a)) ≡ true
      lives zero = refl
      lives (suc n) = f n
  extend a order unfinished f = f

  walk_from-Outcome :
      (fuel : ℕ) (a : Option ℕ) (order : List ℕ)
      → Leads order a
      → Outcome a order (walk_from h fuel a order)
  unfolding walk_from Outcome
  walk_from-Outcome fuel none order leads = (0, refl, sym (append-nil order))
  walk_from-Outcome zero (some a) order leads = tt
  walk_from-Outcome (suc fuel) (some a) order leads =
      step (among a order) refl (walk_from h fuel (next_of h a) (order ++ (a ∷ [])))
        (λ g. walk_from-Outcome fuel (next_of h a) (order ++ (a ∷ [])) (Leads-snoc a order leads))
    where
      step :
          (seen : Bool)
          → among a order ≡ seen
          → (rest : Encoded (List ℕ))
          → (seen ≡ false → Outcome (next_of h a) (order ++ (a ∷ [])) rest)
          → Outcome (some a) order (if seen then malformed else rest)
      step true t rest f = let (p, q) = leads a t in cycle-lives p a q
      step false t rest f = extend a order rest (f refl)

  walk_from-finished :
      (fuel : ℕ) (a : Option ℕ) (order : List ℕ)
      → unseen (length h) order < fuel
      → is_finished (walk_from h fuel a order) ≡ true
  unfolding walk_from
  walk_from-finished fuel none order l = refl
  walk_from-finished zero (some a) order l = absurd (omega (arith, l))
  walk_from-finished (suc fuel) (some a) order l = elim (Bool-cases (among a order)) [
    | inl t ↦ rw t refl
    | inr g ↦ rw g (elim (Bool-cases (ltb a (length h))) [
      | inl m ↦
          let less = (unseen-snoc (length h) a order).1 (ltb→lt a (length h) m) g in
          walk_from-finished fuel (next_of h a) (order ++ (a ∷ [])) (omega (arith, less, l))
      | inr m ↦ rw (get_elem?-past h a (not_below a (length h) m)) refl
    ])
  ]

  path-none : (n : ℕ) → path n none ≡ []
  path-none zero = refl
  path-none (suc n) = refl

  path-ends : (m n : ℕ) (a : Option ℕ) → follow m a ≡ none → follow n a ≡ none → path m a ≡ path n a
  path-ends zero n none d e = sym (path-none n)
  path-ends (suc m) n none d e = sym (path-none n)
  path-ends zero n (some a) d e = absurd (none-ne-some a (sym d))
  path-ends (suc m) zero (some a) d e = absurd (none-ne-some a (sym e))
  path-ends (suc m) (suc n) (some a) d e = ap (λ l. a ∷ l) (path-ends m n (next_of h a) d e)

  -- `Outcome` of a finished walk, of the whole list.
  settle :
      (a : Option ℕ) (r : Encoded (List ℕ))
      → Outcome a [] r
      → is_finished r ≡ true
      → ((n : ℕ) → follow n a ≡ none → r ≡ encoded (path n a))
        × (((n : ℕ) → is_some (follow n a) ≡ true) → r ≡ malformed)
  unfolding Outcome
  settle a (encoded l) (m, d, q) f =
      (λ n e. ap encoded (q ∙ path-ends m n a d e), λ lives. absurd (ground (arith, lives m, d)))
  settle a malformed lives f = (λ n e. absurd (ground (arith, lives n, e)), λ g. refl)
  settle a unfinished o f = absurd (ground arith)

  -- `_flatten_list` always returns or refuses: if following `next` from the head comes to `None`, it
  -- returns the values of the objects on the way, in order; if following `next` never comes to
  -- `None`, the list is refused as malformed.
  pub flatten_list-follow :
      (head : Option ℕ)
      → (is_finished (flatten_list h head) ≡ true)
        × ((n : ℕ)
            → follow n head ≡ none
            → flatten_list h head ≡ encoded (map (val_of h) (path n head)))
        × (((n : ℕ) → is_some (follow n head) ≡ true) → flatten_list h head ≡ malformed)
  unfolding flatten_list walk_next
  flatten_list-follow head =
      let r = walk_from h (suc (length h)) head [] in
      let f = walk_from-finished (suc (length h)) head [] (omega (arith, unseen-le (length h))) in
      let (ends, loops) =
        settle head r (walk_from-Outcome (suc (length h)) head [] (λ b t. absurd (ground arith)))
          f in
      (
        finished r f,
        λ n e. ap (map_encoded (map (val_of h))) (ends n e),
        λ lives. ap (map_encoded (map (val_of h))) (loops lives),
      )
    where
      finished :
          (r : Encoded (List ℕ))
          → is_finished r ≡ true
          → is_finished (map_encoded (map (val_of h)) r) ≡ true
      finished (encoded l) f = refl
      finished malformed f = refl
      finished unfinished f = f
