-- ===== src/Server.antt =====
-- The tools as the process serves them: one request after another, from the state that the last one
-- left (`raw_tools_router` of crates/typedb-mcp-core/src/tools.rs names the handlers). The requests are those
-- for all tools but `export_database` and `import_database`, which Tools/Migrate has. No migration job is running, so no lock of a session is held between two requests.
pub mod Safety
use typedb_mcp.Prelude.{String, List, [], ◌∷◌, false, none}
use typedb_mcp.Kinds.{TxKind, ExecutionContext, read, write, schema}
use typedb_mcp.Coordinator
use typedb_mcp.Wire.{Env}
use typedb_mcp.Session.{SessionState}
use typedb_mcp.Session.Store.{World, Outcome, done, blocked, M, ◌>>=◌, pure}
use typedb_mcp.Envelope.{CallToolResult}
use typedb_mcp.Tools.Transactions.{do_open_any, do_checkpoint, do_commit, do_rollback}
use typedb_mcp.Tools.Queries.{do_query, do_read_once}
use typedb_mcp.Tools.Databases.{
  do_start_session, do_list_databases, do_get_schema, do_create_database, do_delete_database,
}
use typedb_mcp.Tools.ServerInfo.{do_server_info}

pub data Request : Type 0 where
  start_session : Request
  list_databases checkpoint commit rollback : String → Request
  server_info : ExecutionContext → String → Request
  get_schema open_read open_write open_schema query create_database : String → String → Request
  read_once delete_database : String → String → String → Request

-- The route of each tool.
unfoldable pub handle : Env → Request → M CallToolResult
handle e start_session = do_start_session e
handle e (list_databases sid) = do_list_databases e sid
handle e (checkpoint sid) = do_checkpoint e sid
handle e (server_info context sid) = do_server_info e sid context
handle e (commit sid) = do_commit e sid
handle e (rollback sid) = do_rollback e sid
handle e (get_schema sid database) = do_get_schema e sid database
handle e (open_read sid database) = do_open_any e sid database read
handle e (open_write sid database) = do_open_any e sid database write
handle e (open_schema sid database) = do_open_any e sid database schema
handle e (query sid text) = do_query e sid text
handle e (create_database sid database) = do_create_database e sid database
handle e (read_once sid database text) = do_read_once e sid database text
handle e (delete_database sid database confirm) = do_delete_database e sid database confirm

-- The state at start-up. A state of the heap that no session has yet is blank.
unfoldable pub fresh : World
fresh = record {
  arcs = λ id. record { schema_seen = []; tx = none; expires_at = 0 };
  ids = [];
  held = [];
  store_held = false;
  coordinator = Coordinator.new;
  wire = record { trace = []; readings = 0; minted = 0 };
}

-- The answers to a list of requests.
unfoldable pub serve : Env → List Request → M (List CallToolResult)
serve e [] = pure []
serve e (r ∷ rs) =
    let rest = serve e rs in do answer ← handle e r; answers ← rest; pure (answer ∷ answers)
