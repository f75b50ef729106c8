-- ===== src/Examples/Migrating.antt =====
-- The migration tools with an export in memory.
use typedb_mcp.Prelude.{◌≡◌, refl, true, some, [], has, bytes}
use typedb_mcp.Coordinator
use typedb_mcp.Session.Store.{World, done}
use typedb_mcp.Session.Store.Resolve.{IsLive}
use typedb_mcp.Migration.Disk.{export_kind, import_kind, returned}
use typedb_mcp.Migration.Supervisor.{result}
use typedb_mcp.Envelope.{CallToolResult}
use typedb_mcp.Tools.Migrate.{Awaited, awaited}
use typedb_mcp.Tools.Migrate.Answering.{owned}
use typedb_mcp.Tools.Migrate.Alone.{alone, waiting, submitted}
use typedb_mcp.Tools.Migrate.Alone.Exported.{IsBacked, left, export_alone-IsBacked}
use typedb_mcp.Tools.Resolving.{entered}
use typedb_mcp.Examples.Demo.{demo_env, demo_config, two_sessions}
use typedb_mcp.Kinds.{stdio}
use typedb_mcp.Wire.{Env}
use typedb_mcp.Router.{
  export_database, canonical, served_router, default_config, with_database_admin_tools,
  with_database_migration_tools, with_execution_context,
}
use typedb_mcp.Router.Offers.{route, route-raw_tools_router}
use typedb_mcp.Tools.Migrate.Handlers.{handler_export_database}
use typedb_mcp.Examples.Disk.Laws.{memory-Lawful}
use typedb_mcp.Examples.Disk.Jobs.{job, empty_start, report}

-- The job has ended with its report, and the lock is back.
abbrev after_job : World
after_job = record (entered demo_env "b" two_sessions) { held = [] }

abbrev reporting : Awaited
reporting = awaited (result (returned (report import_kind [])))

-- The migration tools are turned on.
abbrev migrating_env : Env
migrating_env = record demo_env {
  config = record demo_config {
    server = record demo_config.server { enable_database_migration_tools = true };
  };
}

IsLive-b_stdio : IsLive migrating_env "b" two_sessions
unfolding has
IsLive-b_stdio = record { free = refl; store = refl; known = refl; ahead = refl }

stdio_offers :
    route (bytes (canonical export_database)) (served_router migrating_env.config stdio)
    ≡ some export_database
unfolding served_router with_execution_context has with_database_migration_tools
    with_database_admin_tools default_config
stdio_offers = route-raw_tools_router _ export_database

export_alone-IsBacked_example :
    let v = waiting empty_start Coordinator.new 0 [] in
    (a : CallToolResult) × (u : World) × (handler_export_database migrating_env stdio "b" "shop"
        (alone v (job export_kind) "b")
        two_sessions
      ≡ done a u)
    × IsBacked
        (job export_kind)
        empty_start
        (left (submitted v (job export_kind) (owned "b" (entered migrating_env "b" two_sessions))))
        a.content.result
export_alone-IsBacked_example =
    export_alone-IsBacked memory-Lawful empty_start Coordinator.new 0 [] (job export_kind)
      migrating_env stdio "b" two_sessions refl stdio_offers IsLive-b_stdio refl
