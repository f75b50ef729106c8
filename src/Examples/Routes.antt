-- ===== src/Examples/Routes.antt =====
-- A router with a prefix, one tool omitted and the migration tools on stdio.
use typedb_mcp.Prelude.{◌≡◌, true, not, ◌&&◌, some, none, [], ◌∷◌, bytes, has, if◌then◌else◌}
use typedb_mcp.Kinds.{stdio}
use typedb_mcp.Router.{
  RawToolsConfig, import_database, default_config, with_prefix, with_execution_context,
  with_database_migration_tools, without, raw_tools_router,
}
use typedb_mcp.Router.Offers.{route, full_name, enabled, route-raw_tools_router}

abbrev local_tools : RawToolsConfig
local_tools = without ("commit" ∷ []) (
    with_prefix (bytes "tdb_")
      (with_execution_context stdio (with_database_migration_tools true default_config)))

route-raw_tools_router_example :
    route (full_name local_tools import_database) (raw_tools_router local_tools) ≡ (
      if not (has "import_database" local_tools.omit) && enabled local_tools import_database
      then some import_database
      else none)
route-raw_tools_router_example = route-raw_tools_router local_tools import_database
