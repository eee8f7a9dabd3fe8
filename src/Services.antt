-- ===== src/Services.antt =====
-- The services that the program talks to and does not implement, each as a record of operations
-- with the documented behaviour that the code relies on: one table of the database, and Redis.
pub mod Redis
use shikomi.Prelude.{ℕ, ◌≡◌, Bool, ◌||◌, Option, none, some, List, ◌==◌, any_of, if◌then◌else◌}

-- One row after `UPDATE ... SET f WHERE p`, and whether it was counted.
abbrev pub revise {ℓ} : {Row : Type ℓ} → (Row → Bool) → (Row → Row) → Option Row → Option Row
revise p f none = none
revise p f (some r) = some (if p r then f r else r)

abbrev pub matched {ℓ} : {Row : Type ℓ} → (Row → Bool) → Option Row → ℕ
matched p none = 0
matched p (some r) = if p r then 1 else 0

abbrev pub unless {ℓ} : {Row : Type ℓ} → (Row → Bool) → Option Row → Option Row
unless p none = none
unless p (some r) = if p r then none else some r

abbrev pub among : ℕ → List ℕ → Bool
among j = any_of (λ k. k == j)

-- A table by its primary key. Each operation is one SQL statement, which is atomic.
pub record Table (Row : Type 0) : Type 1 where
  pub State : Type 0
  pub find : State → ℕ → Option Row
  pub insert : ℕ → Row → State → State
  -- `UPDATE ... WHERE id = :k AND p`, with its row count
  pub update : ℕ → (Row → Bool) → (Row → Row) → State → ℕ × State
  -- `UPDATE ... WHERE p`
  pub update_all : (Row → Bool) → (Row → Row) → State → State
  -- `DELETE ... WHERE p`
  pub delete_all : (Row → Bool) → State → State
  -- `SELECT id ... WHERE p ORDER BY ...`
  pub select : (Row → Bool) → State → List ℕ
  pub mem-select :
      (j : ℕ) (p : Row → Bool) (s : State) → among j (select p s) ≡ (matched p (find s j) == 1)
  pub find-insert :
      (k j : ℕ) (r : Row) (s : State)
      → find (insert k r s) j ≡ (if k == j then some r else find s j)
  pub count-update :
      (k : ℕ) (p : Row → Bool) (f : Row → Row) (s : State)
      → (update k p f s).0 ≡ matched p (find s k)
  pub find-update :
      (k j : ℕ) (p : Row → Bool) (f : Row → Row) (s : State)
      → find (update k p f s).1 j ≡ (if k == j then revise p f (find s j) else find s j)
  pub find-update_all :
      (j : ℕ) (p : Row → Bool) (f : Row → Row) (s : State)
      → find (update_all p f s) j ≡ revise p f (find s j)
  pub find-delete_all :
      (j : ℕ) (p : Row → Bool) (s : State) → find (delete_all p s) j ≡ unless p (find s j)

-- The job queue of the third-party worker library: a job is known by its id while it is queued,
-- runs, or has a kept result, and a known id is not enqueued again. `A` is what a job is given.
pub record Jobs (A : Type 0) : Type 1 where
  pub State : Type 0
  pub known : State → ℕ → Bool
  -- `enqueue_job(..., a, _job_id=id)`
  pub enqueue : ℕ → A → State → State
  pub known-enqueue :
      (i j : ℕ) (a : A) (s : State) → known (enqueue i a s) j ≡ (i == j || known s j)
