-- ===== src/Kernel.antt =====
-- The transaction helpers of `SessionHandle` in crates/typedb-mcp-core/src/core.rs, for the tools of a
-- library consumer. The closure is an argument: it gets the driver's transaction and deals with the
-- outside world; its value is the JSON that it is serialized to.
pub mod Cases
pub mod Calls
pub mod Discipline
use typedb_mcp.Prelude.{String, Bool, true, false, not, Option, none, some, if◌then◌else◌, has}
use typedb_mcp.Kinds.{TxKind, read, write, schema, is_schema}
use typedb_mcp.Errors.{
  ErrorClass, InternalError, driver, to_class, tx_already_open, schema_not_read, no_tx_open,
}
use typedb_mcp.Wire.{
  Env, Wire, Reply, ok, err, DriverTransaction, now, open_transaction, commit, rollback, close,
}
use typedb_mcp.Session.{SessionState, OpenTx}
use typedb_mcp.Session.Store.{M, ◌>>=◌, ◌>>◌, pure, calling, Window, locked}
use typedb_mcp.Envelope.{
  CallToolResult, Moves, Verdict, success, failure, state_error, conclude, value, on_error,
}
use typedb_mcp.Tools.Transactions.{changed_schema, invalidate}
use typedb_mcp.Tools.Queries.{keep_if_retriable}

-- `Result<T, InternalError>`
pub data Tried (A : Type 0) : Type 0 where
  fine : A → Tried A
  failed : InternalError → Tried A

pub data TxOutcome : Type 0 where
  commit_with rollback_with : String → TxOutcome

abbrev pub Closure : Type 0 → Type 0
Closure A = DriverTransaction → Wire → Tried A × Wire

abbrev read_verdict : String → Moves → Tried String → Verdict
read_verdict database hints (fine json) = success (value json) hints
read_verdict database hints (failed x) = failure x (on_error (to_class x) (some database))

unfoldable pub read_tx_window : Env → String → Moves → Closure String → Window Verdict
unfolding open_transaction close
read_tx_window e database hints f s x = elim s.tx [
  | some tx ↦ (state_error tx_already_open (on_error tx_already_open none), s, x)
  | none ↦
      if not (has database s.schema_seen)
      then (state_error schema_not_read (on_error schema_not_read (some database)), s, x)
      else let (o, x') = open_transaction e database read x in
        elim o [
          | err d ↦ (failure (driver d) (on_error (to_class (driver d)) (some database)), s, x')
          | ok t ↦
              let (r, x'') = f t x' in
              let (c, x''') = close e t x'' in (read_verdict database hints r, s, x''')
        ]
]

-- `SessionHandle::with_read_tx`
unfoldable pub with_read_tx : Env → String → String → Moves → Closure String → M CallToolResult
with_read_tx e sid database hints f = do
  v ← locked sid (read_tx_window e database hints f)
  conclude e sid v

unfoldable pub current_tx_window :
    Env
    → Moves
    → (DriverTransaction → TxKind → String → Wire → Tried String × Wire)
    → Window Verdict
unfolding now keep_if_retriable
current_tx_window e hints f s x = elim s.tx [
  | none ↦ (state_error no_tx_open (on_error no_tx_open none), s, x)
  | some tx ↦
      let (t, x') = now e x in
      let touched : SessionState = record s { tx = some (record tx { last_activity = t }) } in
      let (r, x'') = f tx.transaction tx.kind tx.database x' in
      elim r [
        | fine json ↦ (success (value json) hints, touched, x'')
        | failed y ↦ (
          failure y (on_error (to_class y) (some tx.database)),
          keep_if_retriable (to_class y) touched,
          x'',
        )
      ]
]

-- `SessionHandle::with_current_tx`
unfoldable pub with_current_tx :
    Env
    → String
    → Moves
    → (DriverTransaction → TxKind → String → Wire → Tried String × Wire)
    → M CallToolResult
with_current_tx e sid hints f = do v ← locked sid (current_tx_window e hints f); conclude e sid v

-- What the window of `with_owned_tx` ends with: a refusal, or a transaction and the closure's outcome.
pub data Owned : Type 0 where
  refusal : Verdict → Owned
  ran : DriverTransaction → Tried TxOutcome → Owned

unfoldable pub owned_tx_window : Env → String → TxKind → Closure TxOutcome → Window Owned
unfolding open_transaction
owned_tx_window e database kind f s x = elim s.tx [
  | some tx ↦ (refusal (state_error tx_already_open (on_error tx_already_open none)), s, x)
  | none ↦
      if not (has database s.schema_seen)
      then (refusal (state_error schema_not_read (on_error schema_not_read (some database))), s, x)
      else let (o, x') = open_transaction e database kind x in
        elim o [
          | err d ↦
              (refusal (failure (driver d) (on_error (to_class (driver d)) (some database))), s, x')
          | ok t ↦ let (r, x'') = f t x' in (ran t r, s, x'')
        ]
]

abbrev pub after_commit :
    Env → String → String → TxKind → Moves → String → Reply (Unit {0}) → M CallToolResult
after_commit e sid database kind hints json (ok _) = do
  invalidate (changed_schema kind database) sid
  conclude e sid (success (value json) hints)
after_commit e sid database kind hints json (err d) =
    conclude e sid (failure (driver d) (on_error (to_class (driver d)) (some database)))

-- What happens once the session's lock is given back: `tx` is the function's own.
abbrev pub finish_owned : Env → String → String → TxKind → Moves → Owned → M CallToolResult
finish_owned e sid database kind hints (refusal v) = conclude e sid v
finish_owned e sid database kind hints (ran t (fine (commit_with json))) = do
  r ← calling (commit e t)
  after_commit e sid database kind hints json r
finish_owned e sid database kind hints (ran t (fine (rollback_with json))) = do
  calling (rollback e t)
  conclude e sid (success (value json) hints)
finish_owned e sid database kind hints (ran t (failed x)) = do
  calling (rollback e t)
  conclude e sid (failure x (on_error (to_class x) (some database)))

-- `SessionHandle::with_owned_tx`
unfoldable pub with_owned_tx :
    Env → String → String → TxKind → Moves → Closure TxOutcome → M CallToolResult
with_owned_tx e sid database kind hints f = do
  o ← locked sid (owned_tx_window e database kind f)
  finish_owned e sid database kind hints o

-- `SessionHandle::with_write_tx` and `SessionHandle::with_schema_tx`
unfoldable pub with_write_tx : Env → String → String → Moves → Closure TxOutcome → M CallToolResult
with_write_tx e sid database hints f = with_owned_tx e sid database write hints f

unfoldable pub with_schema_tx : Env → String → String → Moves → Closure TxOutcome → M CallToolResult
with_schema_tx e sid database hints f = with_owned_tx e sid database schema hints f
