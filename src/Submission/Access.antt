-- ===== src/Submission/Access.antt =====
-- `get_submission` of backend/app/services/submission_service.py.
use shikomi.Prelude.{ℕ, ◌==◌, Option, none, some, if◌then◌else◌}
use shikomi.Services.{Table}
use shikomi.Submission.{Submission, Backend, World}

pub data Access (D : Type 0) : Type 0 where
  found : Submission D → Access D
  not_found forbidden : Access D

module _ {D : Type 0} (b : Backend D) where
  abbrev pub owned : ℕ → Option (Submission D) → Access D
  owned user none = not_found
  owned user (some s) = if s.user_id == user then found s else forbidden

  unfoldable pub get_submission : ℕ → ℕ → World b → Access D
  get_submission user id w = owned user (Table.find b.table w.rows id)
