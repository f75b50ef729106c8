-- ===== src/Envelope/NextMoves.antt =====
-- The catalogue `next_moves` of crates/typedb-mcp-core/src/envelope.rs: which lines a list of moves
-- stands for. The lines about names of databases are those of `do_create_database` and
-- `do_delete_database` in crates/typedb-mcp-core/src/tools.rs.
pub mod Sessions
pub mod Windows
pub mod Failures
pub mod Phrases
use typedb_mcp.Prelude.{String, List, [], ◌∷◌, format}
use typedb_mcp.Kinds.{read, write, schema}
use typedb_mcp.Envelope.{Moves}

unfoldable pub lines : Moves → List String
unfolding Sessions.after_start_session Sessions.after_list_databases Sessions.after_delete_database
    Sessions.after_start_session_partial Sessions.on_session_unknown Sessions.on_session_expired
    Sessions.after_create_database Sessions.after_get_schema Sessions.after_rollback_ok
    Sessions.after_read_once_ok Windows.after_open_read Windows.after_open_write
    Windows.after_open_schema Windows.after_query_ok Windows.after_checkpoint_ok
    Windows.after_checkpoint_reopen_failed Windows.after_commit_ok Failures.on_upstream_unavailable
    Failures.on_error
lines Moves.after_start_session = Sessions.after_start_session
lines Moves.after_list_databases = Sessions.after_list_databases
lines Moves.after_delete_database = Sessions.after_delete_database
lines (Moves.after_start_session_partial id) = Sessions.after_start_session_partial id
lines Moves.on_session_unknown = Sessions.on_session_unknown
lines Moves.on_session_expired = Sessions.on_session_expired
lines (Moves.after_create_database db) = Sessions.after_create_database db
lines (Moves.after_get_schema db) = Sessions.after_get_schema db
lines (Moves.after_open read db) = Windows.after_open_read db
lines (Moves.after_open write db) = Windows.after_open_write db
lines (Moves.after_open schema db) = Windows.after_open_schema db
lines (Moves.after_query_ok kind db) = Windows.after_query_ok kind db
lines (Moves.after_checkpoint_ok kind db) = Windows.after_checkpoint_ok kind db
lines (Moves.after_checkpoint_reopen_failed kind db) =
    Windows.after_checkpoint_reopen_failed kind db
lines (Moves.after_commit_ok kind db) = Windows.after_commit_ok kind db
lines Moves.after_rollback_ok = Sessions.after_rollback_ok
lines Moves.after_read_once_ok = Sessions.after_read_once_ok
lines Moves.on_upstream_unavailable = Failures.on_upstream_unavailable
lines Moves.valid_names =
    format (
      "Use a non-empty database name containing only ASCII letters, digits, `_`, " ∷ "or `-`." ∷ [])
    ∷ []
lines (Moves.on_error class db_hint) = Failures.on_error class db_hint
lines (Moves.given given_lines) = given_lines
