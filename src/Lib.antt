-- ===== src/Lib.antt =====
-- Verification of shikomi, a coding-practice site that judges submissions in a sandbox.
--
-- The API (backend/app) accepts an attempt, stores its row as `pending` and puts a job in Redis. The
-- worker (backend/worker/judge.py) claims the row, runs the harness (judge/harness.py) in a sandbox and
-- turns the report into a verdict (backend/worker/aggregate.py). The sweeper (backend/worker/sweeper.py)
-- fails rows that are stuck and enqueues lost jobs. The account side keeps refresh tokens and a second
-- factor. Several processes share the database and Redis, so each operation is a function on the shared
-- state. Where it matters, what other processes do at one point of it is an argument, any function on the
-- state: after a failed enqueue, while the sandbox runs, around a conditional update of a token, between
-- the reads and the writes of a password reset, and around a signup's insert. Elsewhere an operation runs
-- without interference. Auth.History interleaves the updates of requests.
--
-- Prelude: native numbers, lists, options, texts. Json: the values on the wire, objects as lists of keys;
-- numbers are an interface (`Number`): Python's int and float other than NaN.
-- Ints past every float are among them, and make some float operations raise.
-- Services: a table of the database (`Table`), the job queue (`Jobs`) and Redis (Services.Redis), as
-- records of operations with the documented behaviour that the code relies on.
-- Queue: backend/app/queue.py, the in-flight lock, the counters, the cache and the alerts.
-- Submission: backend/app/models/submission.py and the services around a row. Submission.Create is
-- `create_submission` with the faults of Redis and the database as an argument; Submission.Worker is
-- `judge_submission`; Submission.Sweeper is `sweep_stale` and `_requeue_lost_jobs`; Submission.Access is
-- `get_submission`.
-- Harness: judge/harness.py. Harness.Compare is the comparison, Harness.Nesting `_nests_too_deeply`,
-- Harness.Run the trusted parent (`_Child.read`, `_spawn_child`, `_finalize`, `run`), Harness.Nodes the
-- codecs of linked lists and trees on an explicit heap, Harness.Operations the child's replay of operations with
-- its probes.
-- Problem: backend/app/schemas/problem.py, the validation of a problem file with what it rewrites.
-- Problem.Wires are the encodings of nodes, Problem.Cases the test cases, Problem.Load the whole.
-- Sandbox: the language profiles and the Rust method names of backend/app/sandbox.py.
-- Verdict: backend/worker/aggregate.py. Disclosure: `build_verdict_results` of backend/worker/judging.py.
-- Auth: backend/app/services/auth_service.py on refresh tokens, with `end_rotation_grace` of
-- backend/app/services/account_service.py and the pruning of the sweeper.
-- Account: the emailed links and the password changes of backend/app/services/account_service.py.
-- Account.Register: `register` and `authenticate` of auth_service.py.
-- Login: the lockout in backend/app/routers/auth.py.
-- Totp: backend/app/totp.py and backend/app/services/totp_service.py.
-- Budget: backend/app/judge_budget.py. Watchdog: backend/worker/watchdog.py. Comparison:
-- backend/app/comparison.py. Tests: the services as plain functions, and concrete inputs.
--
-- Times are natural numbers, seconds unless a file says otherwise; identifiers are numbers. The loop of
-- `_nests_too_deeply` runs on fuel, the number of containers in the value, which is enough because each
-- step takes one container off the stack. The walk along `next` in Harness.Nodes runs on the number of
-- objects in the heap and one more, since it visits each object once at most; the search for a cycle in a
-- tree on four times that number and two, for a node's two children and the mark to leave it. Every other loop is
-- structural recursion. Where the
-- source divides floats (Budget), the model divides exactly.
--
-- Not modelled: the execution of user code and of a problem's validator, which are arguments; the
-- sandbox runners, HTTP, configuration, mail and SQL text, which only call other services; the texts of
-- a report's row, which decide nothing; the runtime histogram, which is float arithmetic; the codec of graphs, function mode of the child, the
-- SQL harness and the texts of mails.
pub mod Account
pub mod Auth
pub mod Budget
pub mod Comparison
pub mod Disclosure
pub mod Harness
pub mod Json
pub mod Login
pub mod Prelude
pub mod Problem
pub mod Queue
pub mod Sandbox
pub mod Services
pub mod Submission
pub mod Tests
pub mod Totp
pub mod Verdict
pub mod Watchdog
