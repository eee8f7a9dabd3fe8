-- ===== src/Submission.antt =====
-- backend/app/models/submission.py and backend/app/services/submission_service.py: the row of a
-- submission, and how an attempt is accepted. The worker and the sweeper are the children
-- `Worker` and `Sweeper`.
pub mod Create
pub mod Accept
pub mod Refuse
pub mod Worker
pub mod Sweeper
pub mod Access
use Prim.Native.String.{String}
use shikomi.Prelude.{ℕ, Bool, true, false, Option, none, some, List}
use shikomi.Services.{Table, Jobs}
use shikomi.Services.Redis.{Redis}

pub data Status : Type 0 where
  pending running accepted wrong_answer runtime_error time_limit_exceeded : Status
  memory_limit_exceeded output_limit_exceeded judge_error : Status

abbrev pub is_pending : Status → Bool
is_pending pending = true
is_pending _ = false

-- `status IN ('pending', 'running')`
abbrev pub is_unfinished : Status → Bool
is_unfinished pending = true
is_unfinished running = true
is_unfinished _ = false

-- A float, as the 64 bits that stand for it: the code stores it and does not compute with it.
abbrev pub Double : Type 0
Double = ℕ

-- `D` is what `verdict_detail` holds; times are in seconds.
pub record Submission (D : Type 0) : Type 0 where
  pub user_id : ℕ
  pub problem_id : ℕ
  pub code : String
  pub language : String
  pub status : Status
  pub verdict_detail : Option D
  pub runtime_ms : Option Double
  pub is_run : Bool
  pub created_at : ℕ
  pub updated_at : ℕ

pub data Mode : Type 0 where
  submit run : Mode

abbrev pub is_submit : Mode → Bool
is_submit submit = true
is_submit run = false

-- The services behind the API, the worker and the sweeper, and the state that they share.
pub record Backend (D : Type 0) : Type 1 where
  pub redis : Redis
  pub table : Table (Submission D)
  pub jobs : Jobs Mode

pub record World {D : Type 0} (b : Backend D) : Type 0 where
  pub cache : Redis.Store b.redis
  pub rows : Table.State b.table
  pub queue : Jobs.State b.jobs
