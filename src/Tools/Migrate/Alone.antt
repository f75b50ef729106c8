-- ===== src/Tools/Migrate/Alone.antt =====
-- A migration tool with the real supervisor behind it, while nothing else runs: `submit` of
-- crates/typedb-mcp-core/src/migration.rs, three steps of the worker, and the receiver.
pub mod Exported
use typedb_mcp.Prelude.{ℕ, ◌≡◌, String, true, false, none, List, [], ◌∷◌, eqb, if◌then◌else◌}
use typedb_mcp.Coordinator.{OperationCoordinator}
use typedb_mcp.Session.Store.{World, M, done, unlock}
use typedb_mcp.Migration.Disk.{System, Process, Result, returned, raised, MigrationError}
use typedb_mcp.Migration.Jobs.{Job}
use typedb_mcp.Migration.Supervisor.{Supervisor, Worker, idle, Answer, dropped, submit, work}
use typedb_mcp.Tools.Migrate.{Awaited, not_submitted, awaited}

-- What was sent to the receiver of a job.
unfoldable pub received : ℕ → List (ℕ × Answer) → Answer
received n [] = dropped
received n ((m, a) ∷ answers) = let rest = received n answers in if eqb m n then a else rest

-- The guard ends with the job; the reservations are the supervisor's.
unfoldable pub given_back : String → OperationCoordinator → World → World
unfolding unlock
given_back sid c w = record w { held = unlock sid w.held; coordinator = c }

abbrev pub worked : {s : System} → Supervisor s → Supervisor s
worked v = work (work (work v))

unfoldable pub await_job :
    {s : System} → String → Result MigrationError ℕ × Supervisor s → World → Awaited × World
unfolding received given_back
await_job sid (raised error, v) w = (not_submitted error, given_back sid v.coordinator w)
await_job sid (returned n, v) w =
    (awaited (received n (worked v).answers), given_back sid (worked v).coordinator w)

-- The supervisor shares its coordinator with the tools.
abbrev pub submitted :
    {s : System} → Supervisor s → Job → World → Result MigrationError ℕ × Supervisor s
submitted v j w = submit j (record v { coordinator = w.coordinator })

unfoldable pub alone : {s : System} → Supervisor s → Job → String → M Awaited
unfolding await_job
alone v j sid w = let (r, u) = await_job sid (submitted v j w) w in done r u

-- A supervisor that waits for a job, after any number of them.
abbrev pub waiting :
    {s : System} → Process s → OperationCoordinator → ℕ → List (ℕ × Answer) → Supervisor s
waiting p c n answers = record {
  process = p;
  accepting = true;
  stop = false;
  completed = false;
  permit = true;
  queue = [];
  worker = idle;
  factory_error = none;
  coordinator = c;
  tools = [];
  next_id = n;
  answers = answers;
}
