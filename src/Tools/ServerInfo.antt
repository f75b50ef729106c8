-- ===== src/Tools/ServerInfo.antt =====
-- `do_server_info` of crates/typedb-mcp-core/src/tools.rs around the diagnostics. The package's own version is
-- not part of the model.
pub mod Telling
use typedb_mcp.Prelude.{ℕ, ◌*◌, String, ◌&&◌, Option, some, none}
use typedb_mcp.Kinds.{ExecutionContext, is_stdio}
use typedb_mcp.Config.{Config}
use typedb_mcp.Errors.{config}
use typedb_mcp.Wire.{Env}
use typedb_mcp.Session.{SessionSnapshot}
use typedb_mcp.Session.Store.{M, done, ◌>>=◌, snapshot_arc}
use typedb_mcp.Diagnostics.{
  DiagnosticReport, Collected, report, deadline_exceeded, collect, expose_topology,
}
use typedb_mcp.Envelope.{
  CallToolResult, Verdict, ServerInfo, server_info, success, failure, envelope,
  after_list_databases, on_upstream_unavailable,
}
use typedb_mcp.Tools.{resolving}

-- `Duration::from_secs(request_timeout_s.unwrap_or(30))`, in nanoseconds.
abbrev seconds_or_thirty : Option ℕ → ℕ
seconds_or_thirty (some s) = s
seconds_or_thirty none = 30

abbrev pub diagnosis_deadline : Config → ℕ
diagnosis_deadline c = seconds_or_thirty c.typedb.request_timeout_s * 1_000_000_000

abbrev pub info : Config → ExecutionContext → DiagnosticReport → ServerInfo
info c context r = record {
  report = r;
  driver_version = "3.12.3";
  support_floor = "3.12.0";
  execution_context = context;
  admin = c.server.enable_database_admin_tools;
  migration = c.server.enable_database_migration_tools && is_stdio context;
}

abbrev pub info_verdict : Config → ExecutionContext → Collected → Verdict
info_verdict c context (report r) = success (server_info (info c context r)) after_list_databases
info_verdict c context deadline_exceeded =
    failure (config "diagnostic deadline exceeded") on_upstream_unavailable

-- `core.typedb.diagnostics(..)`: what it is given, and what it yields.
unfoldable pub diagnose : Env → ExecutionContext → ℕ → Collected
unfolding collect expose_topology
diagnose e context n =
    (collect (e.probe n) e.startup_version (diagnosis_deadline e.config)
      (expose_topology e.config.server.expose_connection_details context)).0

unfoldable pub answer_info : Env → ExecutionContext → SessionSnapshot → M CallToolResult
unfolding diagnose
answer_info e context snap w =
    done (envelope e snap (info_verdict e.config context (diagnose e context w.wire.readings))) w

-- The snapshot is taken before the diagnosis.
unfoldable pub do_server_info : Env → String → ExecutionContext → M CallToolResult
unfolding answer_info
do_server_info e sid context =
    resolving e sid (do snap ← snapshot_arc sid; answer_info e context snap)
