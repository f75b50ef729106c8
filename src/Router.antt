-- ===== src/Router.antt =====
-- The router of the raw tools: `RawToolsConfig` and `raw_tools_router` of
-- crates/typedb-mcp-core/src/tools.rs, and how crates/typedb-mcp-core/src/handler.rs builds it. A route is
-- a name and the tool whose handler it calls.
pub mod Offers
use typedb_mcp.Prelude.{
  ℕ, String, Bool, true, false, not, ◌&&◌, Option, none, some, List, [], ◌∷◌, ◌++◌, if◌then◌else◌,
  has, bytes,
}
use typedb_mcp.Kinds.{ExecutionContext, unspecified, is_stdio}
use typedb_mcp.Config.{Config}

pub data Tool : Type 0 where
  start_session list_databases get_schema open_read open_write open_schema query : Tool
  checkpoint commit rollback read_once server_info : Tool
  export_database import_database create_database delete_database : Tool

-- The constants of the module `names`.
abbrev pub canonical : Tool → String
canonical start_session = "start_session"
canonical list_databases = "list_databases"
canonical get_schema = "get_schema"
canonical open_read = "open_read"
canonical open_write = "open_write"
canonical open_schema = "open_schema"
canonical query = "query"
canonical checkpoint = "checkpoint"
canonical commit = "commit"
canonical rollback = "rollback"
canonical read_once = "read_once"
canonical server_info = "server_info"
canonical export_database = "export_database"
canonical import_database = "import_database"
canonical create_database = "create_database"
canonical delete_database = "delete_database"

-- `prefix` is the bytes of the prefix, `omit` the names in the set.
pub record RawToolsConfig : Type 0 where
  pub prefix : Option (List ℕ)
  pub omit : List String
  pub include_database_admin : Bool
  pub execution_context : ExecutionContext
  pub include_database_migration : Bool

unfoldable pub default_config : RawToolsConfig
default_config = record {
  prefix = none;
  omit = [];
  include_database_admin = false;
  execution_context = unspecified;
  include_database_migration = false;
}

unfoldable pub with_prefix : List ℕ → RawToolsConfig → RawToolsConfig
with_prefix p c = record c { prefix = some p }

unfoldable pub with_database_admin_tools : Bool → RawToolsConfig → RawToolsConfig
with_database_admin_tools enabled c = record c { include_database_admin = enabled }

unfoldable pub with_execution_context : ExecutionContext → RawToolsConfig → RawToolsConfig
with_execution_context context c = record c { execution_context = context }

unfoldable pub with_database_migration_tools : Bool → RawToolsConfig → RawToolsConfig
with_database_migration_tools enabled c = record c { include_database_migration = enabled }

unfoldable pub without : List String → RawToolsConfig → RawToolsConfig
without names c = record c { omit = c.omit ++ names }

abbrev pub prefixed : Option (List ℕ) → String → List ℕ
prefixed none name = bytes name
prefixed (some p) name = p ++ bytes name

unfoldable pub resolve_name : RawToolsConfig → String → Option (List ℕ)
resolve_name c name = if has name c.omit then none else some (prefixed c.prefix name)

abbrev pub ToolRouter : Type 0
ToolRouter = List (List ℕ × Tool)

-- `if let Some(name) = … { router.add_route(…) }`
abbrev pub add_route : Option (List ℕ) → Tool → ToolRouter → ToolRouter
add_route none t r = r
add_route (some name) t r = (name, t) ∷ r

-- One such block for each tool of the list.
unfoldable pub add_routes : RawToolsConfig → List Tool → ToolRouter → ToolRouter
add_routes c [] r = r
add_routes c (t ∷ ts) r = add_route (resolve_name c (canonical t)) t (add_routes c ts r)

abbrev pub default_tools : List Tool
default_tools =
    start_session ∷ list_databases ∷ get_schema ∷ open_read ∷ open_write ∷ open_schema ∷ query
    ∷ checkpoint ∷ commit ∷ rollback ∷ read_once ∷ server_info ∷ []

abbrev pub migration_tools : Bool → List Tool
migration_tools true = export_database ∷ import_database ∷ []
migration_tools false = []

abbrev pub admin_tools : Bool → List Tool
admin_tools true = create_database ∷ delete_database ∷ []
admin_tools false = []

unfoldable pub raw_tools_router : RawToolsConfig → ToolRouter
raw_tools_router c = add_routes c default_tools (
    add_routes c (migration_tools (c.include_database_migration && is_stdio c.execution_context))
      (add_routes c (admin_tools c.include_database_admin) []))

-- `from_core_with_context`
unfoldable pub served_router : Config → ExecutionContext → ToolRouter
served_router config context = raw_tools_router (
    with_execution_context context (
      with_database_migration_tools config.server.enable_database_migration_tools
        (with_database_admin_tools config.server.enable_database_admin_tools default_config)))
