-- ===== src/Harness/Operations/Replay.antt =====
-- The lengths of what the child reports in operations mode, and the probes that the problem schema
-- accepts (`ProbeIn` and `_probes_feed_a_probe_validator` of backend/app/schemas/problem.py).
use Prim.Native.String.{String}
use shikomi.Prelude.{
  subst, ℕ, zero, suc, ◌+◌, ◌≡◌, refl, ap, ◌∙◌, sym, ◌≤◌, ◌<◌, min, Bool, true, ◌&&◌, some, List,
  [], ◌∷◌, length, length-append, ltb, ltb→lt, all_of, &&-eq-true, arith,
}
use shikomi.Json.{null, Json, to_list}
use shikomi.Harness.Nodes.Segment.{get_elem?-some}
use shikomi.Harness.Operations.{
  Ended, returned, raised, outran, Submission, Probe, Probed, results, probe_failed,
  malformed_probe, probe_outran, fill_refs, assign, make_calls, then_run, replay, run_operations,
  repeat_call, run_probes, probe_count, after_calls, prepend, to_items, rest_of, first_args,
}

abbrev pub in_reach : ℕ → ℕ → ℕ × ℕ → Bool
in_reach m n r = ltb r.0 m && ltb r.1 n

length-rest_of {ℓ} : {A : Type ℓ} (xs : List A) → length xs ≤ suc (length (rest_of xs))
length-rest_of [] = omega arith
length-rest_of (x ∷ xs) = omega arith

-- The later lists are as long as the earlier ones, less one element.
pub min-rest_of {ℓ ℓ'} :
    {A : Type ℓ} {B : Type ℓ'} (xs : List A) (ys : List B)
    → length xs ≤ length ys
    → length xs ≤ suc (min (length (rest_of xs)) (length (rest_of ys)))
min-rest_of [] ys l = omega arith
min-rest_of (x ∷ xs) [] l = omega arith
min-rest_of (x ∷ xs) (y ∷ ys) l = omega arith

suc-min : (a b : ℕ) → suc (min a b) ≡ min (suc a) (suc b)
suc-min a b = omega arith

module _ {N : Type 0} where
  assign-some :
      (i : ℕ) (v : Json N) (xs : List (Json N))
      → i < length xs
      → (ys : List (Json N)) × (assign i v xs ≡ some ys) × (length ys ≡ length xs)
  assign-some i v [] l = absurd (omega (arith, l))
  assign-some zero v (x ∷ xs) l = (v ∷ xs, refl, refl)
  assign-some (suc i) v (x ∷ xs) l =
      let (ys, e, n) = assign-some i v xs (omega (arith, l)) in (x ∷ ys, rw e refl, ap suc n)

  fill_refs-some :
      (refs : List (ℕ × ℕ)) (actual args : List (Json N))
      → all_of (in_reach (length args) (length actual)) refs ≡ true
      → (filled : List (Json N)) × (fill_refs refs actual args ≡ some filled)
  fill_refs-some [] actual args ok = (args, refl)
  fill_refs-some ((index, source) ∷ refs) actual args ok =
      let (here, rest) =
        &&-eq-true (in_reach (length args) (length actual) (index, source))
          (all_of (in_reach (length args) (length actual)) refs) ok in
      let (i, j) = &&-eq-true (ltb index (length args)) (ltb source (length actual)) here in
      let (v, e) = get_elem?-some actual source (ltb→lt source (length actual) j) in
      let (ys, q, n) = assign-some index v args (ltb→lt index (length args) i) in
      let same = ap (λ k. all_of (in_reach k (length actual)) refs) n in
      let (filled, f) = fill_refs-some refs actual ys (same ∙ rest) in (filled, rw (e, q) f)

  abbrev pub reaches : ℕ → Probe N → Bool
  reaches m p = all_of (in_reach (length p.args) m) p.refs

  -- What the probes give where none is malformed: as many results as they make calls.
  unfoldable pub Judgeable : ℕ → Probed N → Type 0
  Judgeable n (results vs) = length vs ≡ n
  Judgeable n malformed_probe = ⊥
  Judgeable n probe_failed = Unit
  Judgeable n probe_outran = Unit

  pub to_list-to_items : (vs : List (Json N)) → to_list (to_items vs) ≡ vs
  to_list-to_items [] = refl
  to_list-to_items (v ∷ vs) = ap (λ ws. v ∷ ws) (to_list-to_items vs)

  prepend-Judgeable :
      (n m : ℕ) (vs : List (Json N)) (o : Probed N)
      → length vs ≡ n
      → Judgeable m o
      → Judgeable (n + m) (prepend vs o)
  unfolding Judgeable
  prepend-Judgeable n m vs (results ws) l e = omega (arith, length-append vs ws, l, e)
  prepend-Judgeable n m vs probe_failed l e = tt
  prepend-Judgeable n m vs malformed_probe l e = e
  prepend-Judgeable n m vs probe_outran l e = tt

  unfoldable pub Sized : {S : Type 0} → ℕ → Ended (List (Json N)) × S → Type 0
  Sized n (returned vs, s) = length vs ≡ n
  Sized n (raised, s) = Unit
  Sized n (outran, s) = Unit

  then_run-Sized :
      {A S : Type 0} (n : ℕ) (r : Ended A × S) (f : A → S → Ended (List (Json N)) × S)
      → ((a : A) (s : S) → Sized n (f a s))
      → Sized n (then_run r f)
  unfolding Sized
  then_run-Sized n (returned a, s) f sized = sized a s
  then_run-Sized n (raised, s) f sized = tt
  then_run-Sized n (outran, s) f sized = tt

  cons-Sized :
      {S : Type 0} (n : ℕ) (v : Json N) (r : Ended (List (Json N)) × S)
      → Sized n r
      → Sized (suc n) (then_run r (λ vs s. (returned (v ∷ vs), s)))
  unfolding Sized
  cons-Sized n v (returned vs, s) e = ap suc e
  cons-Sized n v (raised, s) e = tt
  cons-Sized n v (outran, s) e = tt

module _ {N : Type 0} (sub : Submission N) where
  open sub use {State, construct, call}

  replay-Sized :
      (ops : List String) (arg_lists : List (List (Json N))) (s : State)
      → Sized (min (length ops) (length arg_lists)) (replay sub ops arg_lists s)
  unfolding replay Sized
  replay-Sized [] arg_lists s = omega arith
  replay-Sized (op ∷ ops) [] s = omega arith
  replay-Sized (op ∷ ops) (args ∷ arg_lists) s =
      let shorter = min (length ops) (length arg_lists) in
      subst (λ n. Sized n (replay sub (op ∷ ops) (args ∷ arg_lists) s))
        (suc-min (length ops) (length arg_lists))
        (then_run-Sized (suc shorter) (call op args s) _
          (λ v t. cons-Sized shorter v (replay sub ops arg_lists t) (replay-Sized ops arg_lists t)))

  repeat_call-Sized :
      (n : ℕ) (op : String) (args : List (Json N)) (s : State)
      → Sized n (repeat_call sub n op args s)
  unfolding repeat_call Sized
  repeat_call-Sized zero op args s = refl
  repeat_call-Sized (suc n) op args s =
      then_run-Sized (suc n) (call op args s) _
        (λ v t. cons-Sized n v (repeat_call sub n op args t) (repeat_call-Sized n op args t))

  pub run_operations-Sized :
      (ops : List String) (arg_lists : List (List (Json N))) (s : State)
      → Sized
          (suc (min (length (rest_of ops)) (length (rest_of arg_lists))))
          (run_operations sub ops arg_lists s)
  unfolding run_operations
  run_operations-Sized ops arg_lists s =
      then_run-Sized _ (construct (first_args arg_lists) s) _ (λ u t.
        cons-Sized (min (length (rest_of ops)) (length (rest_of arg_lists))) null
          (replay sub (rest_of ops) (rest_of arg_lists) t)
          (replay-Sized (rest_of ops) (rest_of arg_lists) t))

  after_calls-Judgeable :
      (n m : ℕ) (r : Ended (List (Json N)) × State) (rest : State → Probed N × State)
      → Sized n r
      → ((s : State) → Judgeable m (rest s).0)
      → Judgeable (n + m) (after_calls sub rest r).0
  unfolding Sized Judgeable
  after_calls-Judgeable n m (raised, s) rest sized ok = tt
  after_calls-Judgeable n m (outran, s) rest sized ok = tt
  after_calls-Judgeable n m (returned vs, s) rest sized ok =
      prepend-Judgeable n m vs (rest s).0 sized (ok s)

  pub run_probes-Judgeable :
      (probes : List (Probe N)) (actual : List (Json N)) (s : State)
      → all_of (reaches (length actual)) probes ≡ true
      → Judgeable (probe_count probes) (run_probes sub probes actual s).0
  unfolding run_probes probe_count Judgeable
  run_probes-Judgeable [] actual s ok = refl
  run_probes-Judgeable (p ∷ probes) actual s ok =
      let (here, rest) =
        &&-eq-true (reaches (length actual) p) (all_of (reaches (length actual)) probes) ok in
      let (filled, e) = fill_refs-some p.refs actual p.args here in
      let rest_of_probes = run_probes sub probes actual in
      subst (λ o. Judgeable (p.repeat + probe_count probes) (make_calls sub p rest_of_probes s o).0)
        (sym e)
        (after_calls-Judgeable p.repeat (probe_count probes)
          (repeat_call sub p.repeat p.op filled s) rest_of_probes
          (repeat_call-Sized p.repeat p.op filled s)
          (λ t. run_probes-Judgeable probes actual t rest))
