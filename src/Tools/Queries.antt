-- ===== src/Tools/Queries.antt =====
-- `do_query` and `do_read_once` of crates/typedb-mcp-core/src/tools.rs.
pub mod Retriable
pub mod Retrying
pub mod Advice
use typedb_mcp.Prelude.{String, Bool, true, false, not, Option, none, some, if◌then◌else◌, has}
use typedb_mcp.Kinds.{read}
use typedb_mcp.Errors.{
  ErrorClass, driver, to_class, retriable_in_same_tx, tx_already_open, schema_not_read, no_tx_open,
  result_limit_exceeded,
}
use typedb_mcp.Wire.{
  Env, Wire, Reply, ok, err, DriverTransaction, now, query, open_transaction, close,
}
use typedb_mcp.Answers.{QueryAnswerJson, query_answer_to_json}
use typedb_mcp.Session.{SessionState, OpenTx}
use typedb_mcp.Session.Store.{M, ◌>>=◌, pure, Window, locked}
use typedb_mcp.Envelope.{
  CallToolResult, Verdict, success, failure, state_error, conclude, answered, after_query_ok,
  after_read_once_ok, on_error,
}
use typedb_mcp.Tools.{resolving}

-- `tx.query(..).await`, then `query_answer_to_json` of the answer.
unfoldable pub materialize : Env → DriverTransaction → String → Wire → Reply QueryAnswerJson × Wire
unfolding query
materialize e t text x =
    let (r, x') = query e t text x in
    elim r [
      | err d ↦ (err d, x')
      | ok answer ↦ (query_answer_to_json answer e.config.server.result_cap, x')
    ]

-- `if !class.retriable_in_same_tx() { state.tx = None; }`
unfoldable pub keep_if_retriable : ErrorClass → SessionState → SessionState
keep_if_retriable class s = if retriable_in_same_tx class then s else record s { tx = none }

unfoldable pub query_window : Env → String → Window Verdict
unfolding now materialize keep_if_retriable
query_window e text s x = elim s.tx [
  | none ↦ (state_error no_tx_open (on_error no_tx_open none), s, x)
  | some tx ↦
      let (t, x') = now e x in
      let touched : SessionState = record s { tx = some (record tx { last_activity = t }) } in
      let (r, x'') = materialize e tx.transaction text x' in
      elim r [
        | ok json ↦
            if json.truncated
            then (
              state_error result_limit_exceeded (on_error result_limit_exceeded none),
              touched,
              x'',
            )
            else (success (answered json) (after_query_ok tx.kind tx.database), touched, x'')
        | err d ↦
            let class : ErrorClass = to_class (driver d) in
            (failure (driver d) (on_error class none), keep_if_retriable class touched, x'')
      ]
]

unfoldable pub do_query : Env → String → String → M CallToolResult
do_query e sid text = resolving e sid (do v ← locked sid (query_window e text); conclude e sid v)

abbrev pub read_once_verdict : String → Reply QueryAnswerJson → Verdict
read_once_verdict database (ok json) =
    if json.truncated
    then state_error result_limit_exceeded (on_error result_limit_exceeded none)
    else success (answered json) after_read_once_ok
read_once_verdict database (err d) =
    failure (driver d) (on_error (to_class (driver d)) (some database))

unfoldable pub read_once_window : Env → String → String → Window Verdict
unfolding open_transaction materialize close
read_once_window e database text s x = elim s.tx [
  | some tx ↦ (state_error tx_already_open (on_error tx_already_open none), s, x)
  | none ↦
      if not (has database s.schema_seen)
      then (state_error schema_not_read (on_error schema_not_read (some database)), s, x)
      else let (o, x') = open_transaction e database read x in
        elim o [
          | err d ↦ (failure (driver d) (on_error (to_class (driver d)) (some database)), s, x')
          | ok t ↦
              let (r, x'') = materialize e t text x' in
              let (c, x''') = close e t x'' in (read_once_verdict database r, s, x''')
        ]
]

unfoldable pub do_read_once : Env → String → String → String → M CallToolResult
do_read_once e sid database text =
    resolving e sid (do v ← locked sid (read_once_window e database text); conclude e sid v)
