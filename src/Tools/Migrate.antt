-- ===== src/Tools/Migrate.antt =====
-- `do_migration` of crates/typedb-mcp-core/src/tools.rs. The submission of the job with the session's
-- guard, the job's run, the end of the guard and the wait for the answer are the argument `ran`: while
-- they last, other tasks may change the world.
pub mod SelfLock
pub mod Answering
pub mod Handlers
pub mod Alone
use typedb_mcp.Prelude.{String, Bool, true, false, not, Option, none, some, if◌then◌else◌, ◌==◌}
use typedb_mcp.Errors.{unclassified, tx_already_open, confirmation_required}
use typedb_mcp.Wire.{Env}
use typedb_mcp.Session.Store.{
  M, ◌>>=◌, ◌>>◌, pure, lock, inside, drop, invalidate_schema_seen_except,
}
use typedb_mcp.Migration.Disk.{
  MigrationKind, export_kind, import_kind, MigrationError, returned, raised,
}
use typedb_mcp.Migration.Supervisor.{Answer, result, dropped}
use typedb_mcp.Envelope.{
  CallToolResult, Verdict, Message, shown, fixed, explained, success, state_error, migrated,
  conclude, envelope_state_error_no_session, on_upstream_unavailable, on_error, after_get_schema,
}
use typedb_mcp.Tools.{resolving}
use typedb_mcp.Tools.Databases.{has_tx}

-- What the handler gets: the error of `submit`, or what the receiver yields.
pub data Awaited : Type 0 where
  not_submitted : MigrationError → Awaited
  awaited : Answer → Awaited

-- `if kind == MigrationKind::Import { .. }`
unfoldable pub invalidate_if_imported : MigrationKind → String → String → M (Unit {0})
invalidate_if_imported import_kind database sid = invalidate_schema_seen_except database sid
invalidate_if_imported export_kind database sid = pure tt

abbrev pub undone : Message → Verdict
undone message = explained unclassified message on_upstream_unavailable

unfoldable pub answer_migration : Env → MigrationKind → String → String → Awaited → M CallToolResult
unfolding invalidate_if_imported
answer_migration e kind sid database (not_submitted error) = conclude e sid (undone (shown error))
answer_migration e kind sid database (awaited (result (returned report))) = do
  invalidate_if_imported kind database sid
  conclude e sid (success (migrated database report) (after_get_schema database))
answer_migration e kind sid database (awaited (result (raised error))) =
    conclude e sid (undone (shown error))
answer_migration e kind sid database (awaited dropped) =
    conclude e sid (undone (fixed "Migration worker ended before reporting completion."))

-- With the guard of the session owned. The refusal is built before the guard is dropped.
unfoldable pub migrate_owned : Env → MigrationKind → String → String → M Awaited → M CallToolResult
unfolding answer_migration
migrate_owned e kind sid database ran = do
  lock sid
  busy ← inside sid has_tx
  if busy
      then (do
        answer ←
            conclude e sid (state_error tx_already_open (on_error tx_already_open (some database)))
        drop sid
        pure answer)
      else (do r ← ran; answer_migration e kind sid database r)

abbrev pub is_unconfirmed : String → Option String → Bool
is_unconfirmed database none = false
is_unconfirmed database (some c) = not (c == database)

unfoldable pub do_migration :
    Env → Bool → MigrationKind → String → String → Option String → M Awaited → M CallToolResult
do_migration e allowed kind sid database confirm ran =
    if not allowed
    then pure (envelope_state_error_no_session unclassified on_upstream_unavailable)
    else resolving e sid (
        if is_unconfirmed database confirm
        then conclude e sid
            (state_error confirmation_required (on_error confirmation_required (some database)))
        else migrate_owned e kind sid database ran)
