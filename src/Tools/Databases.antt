-- ===== src/Tools/Databases.antt =====
-- `do_start_session`, `do_list_databases`, `do_get_schema`, `do_create_database` and
-- `do_delete_database` of crates/typedb-mcp-core/src/tools.rs. The bundled language reference in the
-- answer of `start_session` is a constant text and not modelled.
pub mod Gates
pub mod Scan
pub mod Refusals
pub mod Deleting
use typedb_mcp.Prelude.{
  ℕ, ◌/◌, String, Bool, true, false, not, ◌==◌, Option, none, some, List, [], ◌∷◌, if◌then◌else◌,
  add, has,
}
use typedb_mcp.Names.{NameError, validate_database_name}
use typedb_mcp.Errors.{
  driver, to_class, unclassified, tx_already_open, confirmation_required, session_unknown,
}
use typedb_mcp.Config.{session_ttl}
use typedb_mcp.Coordinator.{Reserved, reserved, refused, try_reserve, release}
use typedb_mcp.Wire.{
  Env, Wire, Reply, ok, err, list_databases, get_schema, create_database, delete_database,
}
use typedb_mcp.Session.{SessionState, OpenTx}
use typedb_mcp.Session.Store.{
  M, World, Outcome, done, blocked, ◌>>=◌, ◌>>◌, pure, calling, Window, lock, inside, drop, locked,
  start, resolve_and_touch, Resolved, found, unknown, expired, all_sessions, unsee, snapshot_arc,
}
use typedb_mcp.Envelope.{
  CallToolResult, Verdict, success, failure, state_error, conclude, envelope,
  envelope_state_error_no_session, session_started, databases, created, deleted, schema_text,
  after_start_session, after_start_session_partial, after_list_databases, after_create_database,
  after_delete_database, after_get_schema, on_session_unknown, on_upstream_unavailable, on_error,
  valid_names,
}
use typedb_mcp.Tools.{resolving}

abbrev started_verdict : Env → String → Reply (List String) → Verdict
started_verdict e sid (ok names) =
    success (session_started sid (session_ttl e.config / 1_000_000_000) names) after_start_session
started_verdict e sid (err d) = failure (driver d) (after_start_session_partial sid)

abbrev pub started_answer : Env → String → Resolved → M CallToolResult
started_answer e sid found = do
  session ← snapshot_arc sid
  names ← calling (list_databases e)
  pure (envelope e session (started_verdict e sid names))
started_answer e sid _ = pure (envelope_state_error_no_session session_unknown on_session_unknown)

unfoldable pub do_start_session : Env → M CallToolResult
do_start_session e = do
  sid ← start e (session_ttl e.config)
  r ← resolve_and_touch e sid (session_ttl e.config)
  started_answer e sid r

abbrev listed_verdict : Reply (List String) → Verdict
listed_verdict (ok names) = success (databases names) after_list_databases
listed_verdict (err d) = failure (driver d) on_upstream_unavailable

-- Here the session block is taken before the call.
unfoldable pub do_list_databases : Env → String → M CallToolResult
do_list_databases e sid = resolving e sid (do
  session ← snapshot_arc sid
  names ← calling (list_databases e)
  pure (envelope e session (listed_verdict names)))

abbrev pub see : String → Window (Unit {0})
see database s x = (tt, record s { schema_seen = add database s.schema_seen }, x)

abbrev pub schema_answer : Env → String → String → Reply String → M CallToolResult
schema_answer e sid database (ok text) = do
  locked sid (see database)
  conclude e sid (success (schema_text database text) (after_get_schema database))
schema_answer e sid database (err d) =
    conclude e sid (failure (driver d) (on_error (to_class (driver d)) (some database)))

unfoldable pub do_get_schema : Env → String → String → M CallToolResult
do_get_schema e sid database =
    resolving e sid (do r ← calling (get_schema e database); schema_answer e sid database r)

-- `state.tx.is_some()`, and `tx.database == p.database` of it.
abbrev pub has_tx : Window Bool
has_tx s x = (elim s.tx [ some tx ↦ true | none ↦ false ], s, x)

abbrev pub has_tx_on : String → Window Bool
has_tx_on database s x = (elim s.tx [ some tx ↦ tx.database == database | none ↦ false ], s, x)

abbrev pub granted_in : World → Reserved → Outcome Bool
granted_in w (reserved name c) = done true (record w { coordinator = c })
granted_in w (refused x) = done false w

-- `core.coordinator.try_reserve(..)`: whether the name was granted.
unfoldable pub reserve : String → M Bool
reserve database w = granted_in w (try_reserve w.coordinator database)

-- `drop(reservation)`
unfoldable pub drop_reservation : String → M (Unit {0})
unfolding release
drop_reservation database w = done tt (record w { coordinator = release w.coordinator database })

abbrev pub created_verdict : String → Reply (Unit {0}) → Verdict
created_verdict database (ok _) = success (created database) (after_create_database database)
created_verdict database (err d) =
    failure (driver d) (on_error (to_class (driver d)) (some database))

abbrev pub create_named : Env → String → String → Option NameError → M CallToolResult
create_named e sid database (some x) = conclude e sid (state_error unclassified valid_names)
create_named e sid database none = do
  busy ← locked sid has_tx
  if busy then conclude e sid (state_error tx_already_open (on_error tx_already_open none)) else (do
    granted ← reserve database
    if not granted then conclude e sid (state_error unclassified on_upstream_unavailable) else (do
      r ← calling (create_database e database)
      drop_reservation database
      conclude e sid (created_verdict database r)))

unfoldable pub do_create_database : Env → String → String → M CallToolResult
do_create_database e sid database =
    resolving e sid (create_named e sid database (validate_database_name database))

-- The loop over all sessions: the first that has a transaction open on the database. Its lock stays held,
-- as the guard of the source's loop does while the refusal is built.
unfoldable pub any_on : String → List String → M (Option String)
any_on database [] = pure none
any_on database (id ∷ ids) =
    let rest = any_on database ids in
    do
      lock id
      busy ← inside id (has_tx_on database)
      if busy then pure (some id) else (do drop id; rest)

unfoldable pub unsee_all : String → List String → M (Unit {0})
unsee_all database [] = pure tt
unsee_all database (id ∷ ids) =
    let rest = unsee_all database ids in do locked id (unsee database); rest

abbrev pub deleted_verdict : String → Reply (Unit {0}) → Verdict
deleted_verdict database (ok _) = success (deleted database) after_delete_database
deleted_verdict database (err d) =
    failure (driver d) (on_error (to_class (driver d)) (some database))

abbrev pub forget_schema : String → Reply (Unit {0}) → M (Unit {0})
forget_schema database (err d) = pure tt
forget_schema database (ok _) = do ids ← all_sessions; unsee_all database ids

-- With no transaction open on the database.
unfoldable pub delete_reserved : Env → String → String → M CallToolResult
delete_reserved e sid database = do
  granted ← reserve database
  if not granted then conclude e sid (state_error unclassified on_upstream_unavailable) else (do
    r ← calling (delete_database e database)
    drop_reservation database
    forget_schema database r
    conclude e sid (deleted_verdict database r))

-- What the loop over the sessions has found.
abbrev pub delete_unless : Env → String → String → Option String → M CallToolResult
delete_unless e sid database (some other) = do
  answer ← conclude e sid (state_error tx_already_open (on_error tx_already_open none))
  drop other
  pure answer
delete_unless e sid database none = delete_reserved e sid database

-- Past the checks of the request's own arguments.
unfoldable pub delete_checked : Env → String → String → M CallToolResult
delete_checked e sid database = do
  busy ← locked sid has_tx
  if busy then conclude e sid (state_error tx_already_open (on_error tx_already_open none)) else (do
    ids ← all_sessions
    elsewhere ← any_on database ids
    delete_unless e sid database elsewhere)

abbrev pub delete_named : Env → String → String → String → Option NameError → M CallToolResult
delete_named e sid database confirm_database (some x) =
    conclude e sid (state_error unclassified valid_names)
delete_named e sid database confirm_database none =
    if not (confirm_database == database)
    then conclude e sid
        (state_error confirmation_required (on_error confirmation_required (some database)))
    else delete_checked e sid database

unfoldable pub do_delete_database : Env → String → String → String → M CallToolResult
do_delete_database e sid database confirm_database =
    resolving e sid (delete_named e sid database confirm_database (validate_database_name database))
