-- ===== src/Tests/Operations.antt =====
-- A counter that is replayed and probed.
use shikomi.Prelude.{ℕ, suc, ◌≡◌, refl, true, false, [], ◌∷◌, if◌then◌else◌, arith}
use shikomi.Prelude.Text.{str_eq}
use shikomi.Json.{num, null, get, Fields}
use shikomi.Harness.Operations.{returned, raised, Submission, Probe, execute_case, probe_count}
use shikomi.Harness.Operations.Accepted.{execute_case-accounts_probes}
use shikomi.Problem.{refs_fill_real_args, probes_fit}
use shikomi.Harness.Run.{has_status, accounts_probes}

abbrev counter : Submission ℕ
counter = record {
  State = ℕ;
  construct = λ args s. (returned tt, 0);
  call = λ op args s. if str_eq op "add" then (returned (num (suc s)), suc s) else (raised, s);
}

abbrev echo : Probe ℕ
echo = record { op = "add"; args = null ∷ []; refs = (0, 1) ∷ []; repeat = 1 }

abbrev many : Probe ℕ
many = record { op = "add"; args = []; refs = []; repeat = 3 }

abbrev reply : Fields ℕ
reply = (execute_case counter ("Counter" ∷ "add" ∷ []) ([] ∷ [] ∷ []) (echo ∷ many ∷ []) 2 0).0

execute_case-accounts_probes_example :
    (has_status "probe_error" reply ≡ false)
    × (has_status "ok" reply ≡ true
        → accounts_probes (probe_count (echo ∷ many ∷ [])) (get "probe_results" reply) ≡ true)
unfolding refs_fill_real_args probes_fit
execute_case-accounts_probes_example =
    execute_case-accounts_probes counter ("Counter" ∷ "add" ∷ []) ([] ∷ [] ∷ []) echo (many ∷ []) 2
      0 (omega arith) refl refl

reply_is_ok : has_status "ok" reply ≡ true
unfolding execute_case
reply_is_ok = refl
