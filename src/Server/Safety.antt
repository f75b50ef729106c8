-- ===== src/Server/Safety.antt =====
-- What holds of the process after any requests, whatever the server behind it answers.
use typedb_mcp.Prelude.{refl, List, [], ◌∷◌, false}
use typedb_mcp.Wire.{Env}
use typedb_mcp.Session.Store.Runs.{Inv, Post, Runs, Runs-bind, Runs-pure}
use typedb_mcp.Tools.Discipline.Handlers.{
  Runs-do_open_any, Runs-do_checkpoint, Runs-do_commit, Runs-do_rollback, Runs-do_query,
  Runs-do_read_once,
}
use typedb_mcp.Tools.Discipline.Databases.{
  Runs-do_start_session, Runs-do_list_databases, Runs-do_get_schema, Runs-do_create_database,
}
use typedb_mcp.Tools.Discipline.Delete.{Runs-do_delete_database}
use typedb_mcp.Tools.Discipline.Informing.{Runs-do_server_info}
use typedb_mcp.Server.{Request, start_session, handle, fresh, serve}

ruleset tools = (
  Runs-do_open_any, Runs-do_checkpoint, Runs-do_commit, Runs-do_rollback, Runs-do_query,
  Runs-do_read_once, Runs-do_start_session, Runs-do_list_databases, Runs-do_get_schema,
  Runs-do_create_database, Runs-do_delete_database, Runs-do_server_info,
)

-- Whatever the request, its handler finishes and keeps the invariant of the process.
pub Runs-handle : (e : Env) (r : Request) → Runs false false (handle e r)
unfolding handle
Runs-handle e start_session = search tools
Runs-handle e _ = search tools

Runs-serve : (e : Env) (rs : List Request) → Runs false false (serve e rs)
unfolding serve
Runs-serve e [] = Runs-pure []
Runs-serve e (r ∷ rs) =
    Runs-bind _ _ (Runs-handle e r) (λ a. Runs-bind _ _ (Runs-serve e rs) (λ as'. Runs-pure _))

fresh-Inv : Inv false fresh
unfolding fresh
fresh-Inv = record { free = refl; store = refl; faithful = λ id. tt; lawful = tt }

-- From start-up, any list of requests for other tools than `export_database` and `import_database` is
-- answered to its end: no handler waits for a lock. Afterwards
-- no lock is held, what each session says of its transaction is what the driver's transaction is, and
-- of all the calls that went to the server none committed or rolled back a READ transaction and none
-- closed a WRITE or SCHEMA transaction.
pub serve-Inv : (e : Env) (requests : List Request) → Post (Inv false) (serve e requests fresh)
serve-Inv e requests = (Runs-serve e requests).at fresh fresh-Inv
