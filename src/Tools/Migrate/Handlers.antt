-- ===== src/Tools/Migrate/Handlers.antt =====
-- `handler_export_database` and `handler_import_database` of crates/typedb-mcp-core/src/tools.rs.
pub mod Offered
use typedb_mcp.Prelude.{String, Bool, ◌&&◌, some, none}
use typedb_mcp.Kinds.{ExecutionContext, is_stdio}
use typedb_mcp.Config.{Config}
use typedb_mcp.Wire.{Env}
use typedb_mcp.Session.Store.{M}
use typedb_mcp.Migration.Disk.{export_kind, import_kind}
use typedb_mcp.Envelope.{CallToolResult}
use typedb_mcp.Tools.Migrate.{Awaited, do_migration}

abbrev pub migration_allowed : Config → ExecutionContext → Bool
migration_allowed c context = is_stdio context && c.server.enable_database_migration_tools

unfoldable pub handler_export_database :
    Env → ExecutionContext → String → String → M Awaited → M CallToolResult
handler_export_database e context sid database ran =
    do_migration e (migration_allowed e.config context) export_kind sid database none ran

unfoldable pub handler_import_database :
    Env → ExecutionContext → String → String → String → M Awaited → M CallToolResult
handler_import_database e context sid database confirm ran =
    do_migration e (migration_allowed e.config context) import_kind sid database (some confirm) ran
