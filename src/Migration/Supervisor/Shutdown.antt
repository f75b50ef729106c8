-- ===== src/Migration/Supervisor/Shutdown.antt =====
-- `MigrationSupervisor::shutdown` of crates/typedb-mcp-core/src/migration.rs: it polls `completed` every
-- millisecond until the deadline. Between two looks the worker takes some steps, which is the argument `progress`; the
-- clock counts nanoseconds.
pub mod Draining
use typedb_mcp.Prelude.{ℕ, zero, suc, ◌+◌, ◌/◌, Bool, Option, some, none, leb, if◌then◌else◌}
use typedb_mcp.Migration.Disk.{System}
use typedb_mcp.Migration.Supervisor.{Supervisor, work, shutdown_request}

pub data ShutdownResult : Type 0 where
  completed still_running : ShutdownResult

unfoldable pub works : {s : System} → ℕ → Supervisor s → Supervisor s
works zero v = v
works (suc k) v = works k (work v)

-- The loop, from its `n`-th look at the clock on. Without fuel there is no result.
unfoldable pub poll :
    {s : System}
    → ℕ
    → ℕ
    → (ℕ → ℕ)
    → (ℕ → ℕ)
    → ℕ
    → Supervisor s
    → Option (ShutdownResult × Supervisor s)
poll zero deadline clock progress n v = none
poll (suc fuel) deadline clock progress n v =
    let rest = poll fuel deadline clock progress (suc n) (works (progress n) v) in
    if v.completed
    then some (completed, v)
    else if leb deadline (clock n)
    then some (still_running, v)
    else rest

-- One look a millisecond, the one at the deadline, and one more.
abbrev pub polls : ℕ → ℕ
polls grace = suc (suc (grace / 1_000_000))

unfoldable pub shutdown :
    {s : System} → ℕ → (ℕ → ℕ) → (ℕ → ℕ) → Supervisor s → Option (ShutdownResult × Supervisor s)
unfolding poll
shutdown grace clock progress v =
    poll (polls grace) (clock 0 + grace) clock progress 1 (shutdown_request v)
