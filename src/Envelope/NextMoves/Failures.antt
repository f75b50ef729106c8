-- ===== src/Envelope/NextMoves/Failures.antt =====
-- `next_moves` of crates/typedb-mcp-core/src/envelope.rs: the lines of an error, by its class, and the
-- sentence of `explain_query_error`.
use typedb_mcp.Prelude.{String, Option, none, some, List, [], ◌∷◌, format}
use typedb_mcp.Errors.{
  ErrorClass, session_unknown, session_expired, schema_not_read, tx_already_open,
  confirmation_required, no_tx_open, tx_is_read, wrong_tx_type, parse_error, type_error,
  query_failed, write_failed, commit_failed, result_limit_exceeded, timeout, unknown_database,
  idle_timeout, transient_conflict, upstream_unavailable, unclassified,
}
use typedb_mcp.Envelope.NextMoves.Sessions.{on_session_unknown, on_session_expired}

unfoldable pub on_upstream_unavailable : List String
on_upstream_unavailable =
    format (
      "Retry the call once — the TypeDB upstream was unreachable. If the error "
      ∷ "persists, the server is down or misconfigured; surface this to the human "
      ∷ "operator rather than looping." ∷ [])
    ∷ []

-- `db_hint.unwrap_or("<name>")`
abbrev hinted : Option String → String
hinted (some db) = db
hinted none = "<name>"

unfoldable pub on_error : ErrorClass → Option String → List String
unfolding on_session_unknown on_session_expired on_upstream_unavailable
on_error session_unknown db_hint = on_session_unknown
on_error session_expired db_hint = on_session_expired
on_error schema_not_read db_hint =
    format (
      "Call `get_schema(session_id=..., database=\""
      ∷ hinted db_hint
      ∷ "\")` first, then retry this call."
      ∷ [])
    ∷ []
on_error tx_already_open db_hint =
    format (
      "A transaction is already open in this session. Either continue using it with "
      ∷ "`query(session_id=..., ...)`, then "
      ∷ "`commit(session_id=...)`/`rollback(session_id=...)`, or `rollback` it now and "
      ∷ "retry this call." ∷ [])
    ∷ []
on_error confirmation_required db_hint =
    format (
      "Deletion was not performed. Reissue `delete_database` only if permanent "
      ∷ "deletion is truly intended, with `confirm_database` exactly equal to " ∷ "`database`."
      ∷ [])
    ∷ []
on_error no_tx_open db_hint =
    format (
      "Open a transaction first with `open_read` / `open_write` / `open_schema` "
      ∷ "(each takes `session_id` + `database`), or use `read_once` for a one-shot " ∷ "read." ∷ [])
    ∷ []
on_error tx_is_read db_hint =
    format (
      "READ transactions are closed with `rollback(session_id=...)`, not `commit`. "
      ∷ "Call `rollback` instead." ∷ [])
    ∷ []
on_error wrong_tx_type db_hint =
    format (
      "Your transaction is still open. Either issue a different query, or "
      ∷ "`rollback(session_id=...)` and open a transaction of the correct kind." ∷ [])
    ∷ []
on_error parse_error db_hint =
    format (
      "Your transaction is still open. Fix the query and call `query(session_id=..., "
      ∷ "...)` again, or `rollback(session_id=...)` to start over." ∷ [])
    ∷ []
on_error type_error db_hint =
    format (
      "Your transaction is still open. Fix the query and call `query(session_id=..., "
      ∷ "...)` again, or `rollback(session_id=...)` to start over." ∷ [])
    ∷ []
on_error query_failed db_hint =
    format (
      "The transaction has been closed by TypeDB after query representation or "
      ∷ "execution-planning failed. Open a new transaction before continuing." ∷ [])
    ∷ format (
        "Avoid using reserved TypeQL root keywords such as `entity`, `relation`, or "
        ∷ "`attribute` as ordinary match targets or identifiers; prefer labels from "
        ∷ "`get_schema` or schema-defined abstract supertypes." ∷ [])
    ∷ format (
        "If the failed query was schema-agnostic introspection, use `get_schema` for "
        ∷ "schema text and `isa! $t` plus `label($t)` for exact instance type labels." ∷ [])
    ∷ []
on_error write_failed db_hint =
    format (
      "The transaction has been ABORTED by TypeDB. Every write you had already "
      ∷ "submitted in it is also DISCARDED — including any prior `insert` / `delete` / "
      ∷ "`update` calls that returned success in that same transaction. None of them "
      ∷ "reached durable storage. Open a new transaction (typically "
      ∷ "`open_write(session_id=..., database=...)`) and re-apply every one of those "
      ∷ "prior writes in it before issuing your replacement for the failing write." ∷ [])
    ∷ format (
        "The schema-read gate is still valid (no schema change happened), so you do "
        ∷ "NOT need to call `get_schema` again before the next `open_*`. This is "
        ∷ "unrelated to your *data* writes, which are gone." ∷ [])
    ∷ format (
        "Before retrying the failing write, consider re-reading the relevant *data* "
        ∷ "(the constraint that fired tells you something about reality you may not have "
        ∷ "known). Re-reading the schema is optional — useful only if you suspect you "
        ∷ "misremembered a constraint shape." ∷ [])
    ∷ []
on_error commit_failed db_hint =
    format (
      "The transaction is closed and no changes were persisted. Open a new "
      ∷ "transaction with `open_write(session_id=..., database=...)` (or "
      ∷ "`open_schema`) to retry." ∷ [])
    ∷ format (
        "Before retrying, read back the existing data — a commit-time cardinality "
        ∷ "violation often means another instance is required, or you missed an " ∷ "attribute."
        ∷ [])
    ∷ []
on_error result_limit_exceeded db_hint =
    format (
      "Re-issue the query with `sort $k; offset N; limit M;` — `offset` MUST come "
      ∷ "before `limit` (pipeline stages run in textual order). Your transaction is "
      ∷ "still open." ∷ [])
    ∷ []
on_error transient_conflict db_hint =
    format (
      "TypeDB aborted this call because of a concurrent transaction rollback "
      ∷ "(TSV13). This is a benign transient — most commonly seen on the first call "
      ∷ "issued right after a successful `commit`. No state was damaged; simply retry "
      ∷ "the failing call as-is. If the same call fails this way more than a couple of "
      ∷ "times in a row, escalate (it is no longer a transient)." ∷ [])
    ∷ []
on_error timeout db_hint =
    format (
      "The transaction is gone. Open a new one with `open_read` / `open_write` / "
      ∷ "`open_schema` (each takes `session_id` + `database`) to continue." ∷ [])
    ∷ []
on_error idle_timeout db_hint =
    format (
      "The transaction is gone. Open a new one with `open_read` / `open_write` / "
      ∷ "`open_schema` (each takes `session_id` + `database`) to continue." ∷ [])
    ∷ []
on_error unknown_database db_hint =
    "Call `list_databases(session_id=...)` to see the available database names." ∷ []
on_error upstream_unavailable db_hint = on_upstream_unavailable
on_error unclassified db_hint =
    format (
      "Assume the transaction (if any) is gone. Open a new one with `open_read` / "
      ∷ "`open_write` / `open_schema` if you intend to continue." ∷ [])
    ∷ format (
        "The full TypeDB error is preserved verbatim in `error.message` (after "
        ∷ "`(details: ...)`), and every bracketed upstream code is in "
        ∷ "`error.typedb_codes` — quote them when reporting to the human operator." ∷ [])
    ∷ format (
        "If this class recurs, escalate: it likely means TypeDB introduced a new error "
        ∷ "code post-dating this server's classifier, and someone needs to update "
        ∷ "`classify_typedb_error` in `src/error.rs` to recognize it." ∷ [])
    ∷ []

unfoldable pub explain_query_error : ErrorClass → String
explain_query_error parse_error =
    "TypeQL parse error. Your transaction is still open — fix the query and retry."
explain_query_error type_error = format (
    "TypeQL type-inference error (e.g. unknown type label). Your transaction is "
    ∷ "still open — fix the query and retry." ∷ [])
explain_query_error query_failed = format (
    "TypeQL query representation/execution-planning failed after parsing; TypeDB "
    ∷ "closed the transaction. Open a new transaction to continue." ∷ [])
explain_query_error wrong_tx_type = format (
    "Wrong transaction kind for this query. Your transaction is still open; "
    ∷ "rollback and open the correct kind, or issue a different query." ∷ [])
explain_query_error write_failed = format (
    "Write failed and the transaction has been aborted by TypeDB. Open a new "
    ∷ "transaction to continue." ∷ [])
explain_query_error commit_failed = format (
    "Commit-time validation failed; the transaction is closed and no changes were "
    ∷ "persisted (any concept IIDs in the upstream details refer to never-committed " ∷ "state)."
    ∷ [])
explain_query_error result_limit_exceeded = format (
    "Result set exceeded the server-side cap. Re-issue with `sort $k; offset N; "
    ∷ "limit M;` (offset MUST come before limit)." ∷ [])
explain_query_error timeout = "Server-side query timeout; the transaction is closed."
explain_query_error idle_timeout = format (
    "Your transaction was closed (idle reaper or prior write error). Open a new "
    ∷ "one to continue." ∷ [])
explain_query_error unclassified = format (
    "TypeDB returned an error this MCP server does not recognize — most likely a "
    ∷ "code introduced in a newer TypeDB release than this server was built against. "
    ∷ "The VERBATIM driver message is included in the details below, and every "
    ∷ "bracketed code from the stack is in `error.typedb_codes`. Treat any open "
    ∷ "transaction as gone; surface this to the human operator if it recurs (it may "
    ∷ "indicate the classifier needs updating)." ∷ [])
explain_query_error _ = "Query failed; see error details."
