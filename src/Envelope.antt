-- ===== src/Envelope.antt =====
-- crates/typedb-mcp-core/src/envelope.rs: the response envelope. Of the messages only those of
-- the migration tools are modelled. A list of moves stands as the catalogue's function that yields it; `NextMoves` has its lines.
pub mod NextMoves
use typedb_mcp.Prelude.{ℕ, String, Bool, true, false, Option, none, some, List}
use typedb_mcp.Kinds.{TxKind, ExecutionContext}
use typedb_mcp.Errors.{ErrorClass, InternalError, driver, config, retriable_in_same_tx, to_class}
use typedb_mcp.Codes.{Scan, extract_codes}
use typedb_mcp.Wire.{Env}
use typedb_mcp.Session.{SessionSnapshot, no_session}
use typedb_mcp.Session.Store.{M, ◌>>=◌, pure, snapshot_arc}
use typedb_mcp.Answers.{QueryAnswerJson}
use typedb_mcp.Diagnostics.{DiagnosticReport}
use typedb_mcp.Migration.Disk.{MigrationError}
use typedb_mcp.Migration.Jobs.{MigrationReport}

-- The `result` of `server_info`: the report, what the transport offers, and the fixed versions.
pub record ServerInfo : Type 0 where
  pub report : DiagnosticReport
  pub driver_version : String
  pub support_floor : String
  pub execution_context : ExecutionContext
  pub admin : Bool
  pub migration : Bool

-- The JSON of `result`, by the handler that builds it.
pub data Payload : Type 0 where
  session_started : String → ℕ → List String → Payload
  databases : List String → Payload
  created deleted : String → Payload
  schema_text : String → String → Payload
  opened : Payload
  answered : QueryAnswerJson → Payload
  checkpointed : String → TxKind → Payload
  committed : Payload
  rolled_back : Bool → Payload
  value : String → Payload
  migrated : String → MigrationReport → Payload
  server_info : ServerInfo → Payload

pub data Moves : Type 0 where
  after_start_session after_list_databases after_delete_database : Moves
  after_start_session_partial : String → Moves
  on_session_unknown on_session_expired : Moves
  after_create_database after_get_schema : String → Moves
  after_open : TxKind → String → Moves
  after_query_ok after_checkpoint_ok after_checkpoint_reopen_failed : TxKind → String → Moves
  after_commit_ok : TxKind → String → Moves
  after_rollback_ok after_read_once_ok on_upstream_unavailable valid_names : Moves
  on_error : ErrorClass → Option String → Moves
  given : List String → Moves

-- The message of an error: what `to_string` makes of a migration's error, or a fixed text. The other
-- messages are not modelled.
pub data Message : Type 0 where
  shown : MigrationError → Message
  fixed : String → Message
  unmodelled : Message

pub record ErrorPayload : Type 0 where
  pub class : ErrorClass
  pub retriable_in_same_tx : Bool
  pub typedb_codes : Option Scan
  pub message : Message

pub record AgentEnvelope : Type 0 where
  pub session : SessionSnapshot
  pub next_moves : Moves
  pub result : Option Payload
  pub error : Option ErrorPayload

-- `CallToolResult::success` and `CallToolResult::error`.
pub record CallToolResult : Type 0 where
  pub is_error : Bool
  pub content : AgentEnvelope

unfoldable pub envelope_ok : SessionSnapshot → Payload → Moves → CallToolResult
envelope_ok session result next_moves = record {
  is_error = false;
  content = record {
    session = session;
    next_moves = next_moves;
    result = some result;
    error = none;
  };
}

abbrev failed : SessionSnapshot → ErrorPayload → Moves → CallToolResult
failed session payload next_moves = record {
  is_error = true;
  content = record {
    session = session;
    next_moves = next_moves;
    result = none;
    error = some payload;
  };
}

unfoldable pub envelope_err : Env → SessionSnapshot → InternalError → Moves → CallToolResult
envelope_err e session error next_moves =
    failed session
      (record {
        class = to_class error;
        retriable_in_same_tx = retriable_in_same_tx (to_class error);
        typedb_codes = elim error [
          | driver d ↦ some (extract_codes (e.display d))
          | config _ ↦ none
        ];
        message = unmodelled;
      })
      next_moves

abbrev pub state_error_with : SessionSnapshot → ErrorClass → Message → Moves → CallToolResult
state_error_with session class message next_moves =
    failed session
      (record {
        class = class;
        retriable_in_same_tx = retriable_in_same_tx class;
        typedb_codes = none;
        message = message;
      })
      next_moves

unfoldable pub envelope_state_error : SessionSnapshot → ErrorClass → Moves → CallToolResult
envelope_state_error session class next_moves = state_error_with session class unmodelled next_moves

unfoldable pub envelope_state_error_no_session : ErrorClass → Moves → CallToolResult
unfolding envelope_state_error
envelope_state_error_no_session class next_moves = envelope_state_error no_session class next_moves

-- What a handler answers, before the session block is put in: `envelope_ok`, `envelope_err` or
-- `envelope_state_error` with its arguments.
pub data Verdict : Type 0 where
  success : Payload → Moves → Verdict
  failure : InternalError → Moves → Verdict
  state_error : ErrorClass → Moves → Verdict
  explained : ErrorClass → Message → Moves → Verdict

unfoldable pub envelope : Env → SessionSnapshot → Verdict → CallToolResult
unfolding envelope_ok envelope_err envelope_state_error
envelope e session (success result moves) = envelope_ok session result moves
envelope e session (failure error moves) = envelope_err e session error moves
envelope e session (state_error class moves) = envelope_state_error session class moves
envelope e session (explained class message moves) = state_error_with session class message moves

-- `return envelope_…(session.snapshot().await, …)`
unfoldable pub conclude : Env → String → Verdict → M CallToolResult
conclude e id v = do session ← snapshot_arc id; pure (envelope e session v)
