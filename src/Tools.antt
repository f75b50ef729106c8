-- ===== src/Tools.antt =====
-- crates/typedb-mcp-core/src/tools.rs: the tool implementations. Each `do_…` is the function of that
-- name: it resolves the session, works in the windows in which it holds the session's lock, and answers.
-- A window that ends in `drop(state)` and an answer yields the `Verdict` of that answer.
pub mod Transactions
pub mod Queries
pub mod Databases
pub mod Migrate
pub mod ServerInfo
pub mod Resolving
pub mod Windowed
pub mod Discipline
use typedb_mcp.Prelude.{String}
use typedb_mcp.Errors.{session_unknown, session_expired}
use typedb_mcp.Config.{session_ttl}
use typedb_mcp.Wire.{Env}
use typedb_mcp.Session.Store.{M, ◌>>=◌, pure, Resolved, found, unknown, expired, resolve_and_touch}
use typedb_mcp.Envelope.{
  CallToolResult, Moves, on_session_unknown, on_session_expired, envelope_state_error_no_session,
}

abbrev pub or_answer : Resolved → M CallToolResult → M CallToolResult
or_answer found k = k
or_answer unknown k = pure (envelope_state_error_no_session session_unknown on_session_unknown)
or_answer expired k = pure (envelope_state_error_no_session session_expired on_session_expired)

-- `TypeDbCore::resolve` and the early return of every handler: `match core.resolve(..).await { Ok(s) =>
-- s, Err(env) => return env }`.
unfoldable pub resolving : Env → String → M CallToolResult → M CallToolResult
resolving e sid k = do r ← resolve_and_touch e sid (session_ttl e.config); or_answer r k
