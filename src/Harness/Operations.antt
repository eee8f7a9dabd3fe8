-- ===== src/Harness/Operations.antt =====
-- Operations mode of judge/harness.py in the child: `_run_operations`, `_run_probes`, `_probe_count`
-- and the operations branch of `_execute_case`. The submission's class is a parameter; its state is
-- whatever its code changes. Arguments are the values after `_decode_args`. Standard output and the
-- error texts are left out.
pub mod Replay
pub mod Accepted
use Prim.Native.String.{String}
use shikomi.Prelude.{
  and_then, ℕ, zero, suc, ◌+◌, ◌==◌, Bool, true, false, Option, none, some, List, [], ◌∷◌, ◌++◌,
  get_elem?, if◌then◌else◌,
}
use shikomi.Json.{Json, null, num, str, arr, Items, nil, cons, Fields, end, field}

-- How a call of the submission's code ends.
pub data Ended (A : Type 0) : Type 0 where
  returned : A → Ended A
  raised outran : Ended A

-- `cls(*args)`, whose instance is part of the state, and `getattr(instance, op)(*args)`, which raises
-- where there is no such method.
pub record Submission (N : Type 0) : Type 1 where
  pub State : Type 0
  pub construct : List (Json N) → State → Ended Unit × State
  pub call : String → List (Json N) → State → Ended (Json N) × State

-- `refs` gives the indices of arguments and of operations. `repeat` is 1 where it is not given.
pub record Probe (N : Type 0) : Type 0 where
  pub op : String
  pub args : List (Json N)
  pub refs : List (ℕ × ℕ)
  pub repeat : ℕ

-- How the probes end: `probe_failed` and `malformed_probe` are `_ProbeFailed` and `ValidatorError`.
pub data Probed (N : Type 0) : Type 0 where
  results : List (Json N) → Probed N
  probe_failed malformed_probe probe_outran : Probed N

abbrev pub rest_of {ℓ} : {A : Type ℓ} → List A → List A
rest_of [] = []
rest_of (x ∷ xs) = xs

module _ {N : Type 0} where
  abbrev pub first_args : List (List (Json N)) → List (Json N)
  first_args [] = []
  first_args (args ∷ rest) = args

  -- `xs[i] = v`, or `none` for an `IndexError`
  abbrev pub assign : ℕ → Json N → List (Json N) → Option (List (Json N))
  assign i v [] = none
  assign zero v (x ∷ xs) = some (v ∷ xs)
  assign (suc i) v (x ∷ xs) = kept x (assign i v xs)
    where
      kept : Json N → Option (List (Json N)) → Option (List (Json N))
      kept x none = none
      kept x (some ys) = some (x ∷ ys)

  -- `args[int(index)] = actual[source]` for each reference
  abbrev pub fill_refs : List (ℕ × ℕ) → List (Json N) → List (Json N) → Option (List (Json N))
  fill_refs [] actual args = some args
  fill_refs ((index, source) ∷ refs) actual args =
      and_then (get_elem? actual source)
        (λ v. and_then (assign index v args) (fill_refs refs actual))

  unfoldable pub probe_count : List (Probe N) → ℕ
  probe_count [] = 0
  probe_count (p ∷ probes) = p.repeat + probe_count probes

-- What follows a call, unless the call raised or outran its limit.
abbrev pub then_run : {A B S : Type 0} → Ended A × S → (A → S → Ended B × S) → Ended B × S
then_run (returned a, s) f = f a s
then_run (raised, s) f = (raised, s)
then_run (outran, s) f = (outran, s)

module _ {N : Type 0} where
  abbrev pub prepend : List (Json N) → Probed N → Probed N
  prepend vs (results ws) = results (vs ++ ws)
  prepend vs probe_failed = probe_failed
  prepend vs malformed_probe = malformed_probe
  prepend vs probe_outran = probe_outran

  abbrev pub to_items : List (Json N) → Items N
  to_items [] = nil
  to_items (v ∷ vs) = cons v (to_items vs)

  -- The reply to the parent.
  abbrev pub status_reply : String → N → Fields N
  status_reply t time = field "status" (str t) (field "runtime_ms" (num time) end)

  abbrev pub ok_reply : List (Json N) → N → Fields N → Fields N
  ok_reply actual time more =
      field "status" (str "ok")
        (field "actual" (arr (to_items actual)) (field "runtime_ms" (num time) more))

  abbrev pub probed_reply : List (Json N) → N → Probed N → Fields N
  probed_reply actual time (results vs) =
      ok_reply actual time (field "probe_results" (arr (to_items vs)) end)
  probed_reply actual time probe_failed = status_reply "runtime_error" time
  probed_reply actual time malformed_probe = status_reply "probe_error" time
  probed_reply actual time probe_outran = field "status" (str "time_limit_exceeded") end

module _ {N : Type 0} (sub : Submission N) where
  open sub use {State, construct, call}

  -- The calls of the operations after the constructor; `zip` stops at the shorter list.
  unfoldable pub replay : List String → List (List (Json N)) → State → Ended (List (Json N)) × State
  replay [] arg_lists s = (returned [], s)
  replay (op ∷ ops) [] s = (returned [], s)
  replay (op ∷ ops) (args ∷ arg_lists) s =
      then_run (call op args s)
        (λ v s. then_run (replay ops arg_lists s) (λ vs s. (returned (v ∷ vs), s)))

  -- `_run_operations`; the result of the constructor is `None`.
  unfoldable pub run_operations :
      List String → List (List (Json N)) → State → Ended (List (Json N)) × State
  unfolding replay
  run_operations ops arg_lists s = then_run (construct (first_args arg_lists) s) (λ u s.
      then_run (replay (rest_of ops) (rest_of arg_lists) s) (λ vs s. (returned (null ∷ vs), s)))

  -- The `repeat` calls of one probe, each on a fresh copy of the arguments.
  unfoldable pub repeat_call : ℕ → String → List (Json N) → State → Ended (List (Json N)) × State
  repeat_call zero op args s = (returned [], s)
  repeat_call (suc n) op args s =
      then_run (call op args s)
        (λ v s. then_run (repeat_call n op args s) (λ vs s. (returned (v ∷ vs), s)))

  abbrev pub after_calls :
      (State → Probed N × State) → Ended (List (Json N)) × State → Probed N × State
  after_calls rest (raised, s) = (probe_failed, s)
  after_calls rest (outran, s) = (probe_outran, s)
  after_calls rest (returned vs, s) = let (outcome, t) = rest s in (prepend vs outcome, t)

  -- The calls of one probe with its references filled, and the rest of the probes.
  abbrev pub make_calls :
      Probe N → (State → Probed N × State) → State → Option (List (Json N)) → Probed N × State
  make_calls p rest s none = (malformed_probe, s)
  make_calls p rest s (some args) = after_calls rest (repeat_call p.repeat p.op args s)

  unfoldable pub run_probes : List (Probe N) → List (Json N) → State → Probed N × State
  unfolding repeat_call
  run_probes [] actual s = (results [], s)
  run_probes (p ∷ probes) actual s =
      make_calls p (run_probes probes actual) s (fill_refs p.refs actual p.args)

  -- The reply where the case has probes, and where it has none.
  abbrev pub with_probes : List (Probe N) → N → List (Json N) → State → Fields N × State
  with_probes [] elapsed actual s = (ok_reply actual elapsed end, s)
  with_probes (p ∷ rest) elapsed actual s =
      let (outcome, t) = run_probes (p ∷ rest) actual s in (probed_reply actual elapsed outcome, t)

  abbrev pub reply_to : List (Probe N) → N → Ended (List (Json N)) × State → Fields N × State
  reply_to probes elapsed (returned actual, s) = with_probes probes elapsed actual s
  reply_to probes elapsed (raised, s) = (status_reply "runtime_error" elapsed, s)
  reply_to probes elapsed (outran, s) = (field "status" (str "time_limit_exceeded") end, s)

  -- `_execute_case` of an operations case, where `elapsed` is its time.
  unfoldable pub execute_case :
      List String → List (List (Json N)) → List (Probe N) → N → State → Fields N × State
  unfolding run_operations run_probes
  execute_case ops arg_lists probes elapsed s =
      reply_to probes elapsed (run_operations ops arg_lists s)
