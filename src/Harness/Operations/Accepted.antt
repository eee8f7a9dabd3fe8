-- ===== src/Harness/Operations/Accepted.antt =====
-- The replies of the child in operations mode where the probes are ones that the problem schema
-- accepts.
use Prim.Native.String.{String}
use shikomi.Prelude.{
  ℕ, suc, ◌≡◌, refl, ◌≤◌, min, true, false, ◌&&◌, List, [], ◌∷◌, length, ltb, leb, all_of,
  &&-eq-true, arith, ==_refl,
}
use shikomi.Json.{Json, Fields, get}
use shikomi.Harness.Operations.{
  Ended, returned, raised, outran, Submission, Probe, Probed, results, probe_failed,
  malformed_probe, probe_outran, run_operations, run_probes, probe_count, probed_reply, reply_to,
  execute_case, rest_of,
}
use shikomi.Harness.Run.{has_status, accounts_probes}
use shikomi.Problem.{refs_fill_real_args, refs_name_ops, probes_fit, max_probe_calls}
use shikomi.Harness.Operations.Replay.{
  Judgeable, Sized, in_reach, reaches, min-rest_of, run_probes-Judgeable, run_operations-Sized,
  to_list-to_items,
}

refs-reach :
    (m n k : ℕ) (refs : List (ℕ × ℕ))
    → n ≤ k
    → all_of (λ r. ltb r.0 m) refs ≡ true
    → all_of (λ r. leb 1 r.1 && ltb r.1 n) refs ≡ true
    → all_of (in_reach m k) refs ≡ true
refs-reach m n k [] l a b = refl
refs-reach m n k (r ∷ refs) l a b =
    let (a0, a1) = &&-eq-true (ltb r.0 m) (all_of (λ r. ltb r.0 m) refs) a in
    let (b0, b1) =
      &&-eq-true (leb 1 r.1 && ltb r.1 n) (all_of (λ r. leb 1 r.1 && ltb r.1 n) refs) b in
    let rest = refs-reach m n k refs l a1 b1 in ground arith

module _ {N : Type 0} where
  probes-reach :
      (n k : ℕ) (probes : List (Probe N))
      → n ≤ k
      → all_of refs_fill_real_args probes ≡ true
      → all_of (refs_name_ops n) probes ≡ true
      → all_of (reaches k) probes ≡ true
  unfolding refs_fill_real_args
  probes-reach n k [] l a b = refl
  probes-reach n k (p ∷ probes) l a b =
      let (a0, a1) = &&-eq-true (refs_fill_real_args p) (all_of refs_fill_real_args probes) a in
      let (b0, b1) = &&-eq-true (refs_name_ops n p) (all_of (refs_name_ops n) probes) b in
      let filled : all_of (λ r. ltb r.0 (length p.args)) p.refs ≡ true = ground arith in
      let here = refs-reach (length p.args) n k p.refs l filled b0 in
      let rest = probes-reach n k probes l a1 b1 in ground arith

  -- The parent can judge a reply to a case whose probes make `n` calls.
  abbrev Accounts : ℕ → Fields N → Type 0
  Accounts n reply =
      (has_status "probe_error" reply ≡ false)
      × (has_status "ok" reply ≡ true → accounts_probes n (get "probe_results" reply) ≡ true)

  probed_reply-Accounts :
      (n : ℕ) (actual : List (Json N)) (time : N) (o : Probed N)
      → Judgeable n o
      → Accounts n (probed_reply actual time o)
  unfolding Judgeable
  probed_reply-Accounts n actual time (results vs) e =
      (refl, λ ok. rw (to_list-to_items vs, e) (==_refl n))
  probed_reply-Accounts n actual time probe_failed e = (refl, λ ok. absurd (ground arith))
  probed_reply-Accounts n actual time malformed_probe e = absurd e
  probed_reply-Accounts n actual time probe_outran e = (refl, λ ok. absurd (ground arith))

module _ {N : Type 0} (sub : Submission N) where
  open sub use {State}

  reply_to-Accounts :
      (n k : ℕ) (p : Probe N) (probes : List (Probe N)) (time : N)
      (r : Ended (List (Json N)) × State)
      → Sized k r
      → n ≤ k
      → all_of refs_fill_real_args (p ∷ probes) ≡ true
      → all_of (refs_name_ops n) (p ∷ probes) ≡ true
      → Accounts (probe_count (p ∷ probes)) (reply_to sub (p ∷ probes) time r).0
  unfolding Sized
  reply_to-Accounts n k p probes time (raised, s) sized l a b = (refl, λ ok. absurd (ground arith))
  reply_to-Accounts n k p probes time (outran, s) sized l a b = (refl, λ ok. absurd (ground arith))
  reply_to-Accounts n k p probes time (returned vs, s) sized l a b =
      probed_reply-Accounts (probe_count (p ∷ probes)) vs time (run_probes sub (p ∷ probes) vs s).0
        (run_probes-Judgeable sub (p ∷ probes) vs s
          (probes-reach n (length vs) (p ∷ probes) (omega (arith, sized, l)) a b))

  -- For an operations case with at least as many argument lists as operations, and probes that the
  -- problem schema accepts for these operations, the child never reports a malformed probe; a reply
  -- with status `ok` has as many probe results as the parent counts.
  pub execute_case-accounts_probes :
      (ops : List String) (arg_lists : List (List (Json N))) (p : Probe N) (probes : List (Probe N))
      (time : N) (s : State)
      → length ops ≤ length arg_lists
      → all_of refs_fill_real_args (p ∷ probes) ≡ true
      → probes_fit (length ops) (p ∷ probes) ≡ true
      → let reply = (execute_case sub ops arg_lists (p ∷ probes) time s).0 in
        (has_status "probe_error" reply ≡ false)
        × (has_status "ok" reply ≡ true
            → accounts_probes (probe_count (p ∷ probes)) (get "probe_results" reply) ≡ true)
  unfolding execute_case probes_fit
  execute_case-accounts_probes ops arg_lists p probes time s l a b =
      reply_to-Accounts (length ops) (suc (min (length (rest_of ops)) (length (rest_of arg_lists))))
        p probes time (run_operations sub ops arg_lists s)
        (run_operations-Sized sub ops arg_lists s) (min-rest_of ops arg_lists l) a
        (&&-eq-true (all_of (refs_name_ops (length ops)) (p ∷ probes))
          (leb (probe_count (p ∷ probes)) max_probe_calls) b).0
