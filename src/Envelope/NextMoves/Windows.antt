-- ===== src/Envelope/NextMoves/Windows.antt =====
-- `next_moves` of crates/typedb-mcp-core/src/envelope.rs: the lines about a transaction, by its kind.
use typedb_mcp.Prelude.{String, List, [], ◌∷◌, ◌++◌, format, if◌then◌else◌}
use typedb_mcp.Kinds.{TxKind, read, write, schema, is_schema}

-- `{:?}` of a kind.
abbrev debug : TxKind → String
debug read = "Read"
debug write = "Write"
debug schema = "Schema"

unfoldable pub after_open_read : String → List String
after_open_read db =
    format (
      "Submit TypeQL with `query(session_id=..., query=\"match ...; fetch { ... "
      ∷ "};\")`. Repeat for as many reads as you need. READ transactions accept reads "
      ∷ "ONLY — `insert`/`delete`/`update` and `define`/`undefine`/`redefine` will be "
      ∷ "rejected; open a write or schema transaction instead." ∷ [])
    ∷ format (
        "Close the transaction with `rollback(session_id=...)` when done. READ "
        ∷ "transactions cannot be committed (TypeDB will reject this with TSV2)." ∷ [])
    ∷ format ("Open transaction is on database `" ∷ db ∷ "`." ∷ [])
    ∷ []

unfoldable pub after_open_write : String → List String
after_open_write db =
    format (
      "Submit TypeQL with `query(session_id=..., query=\"...\")`. WRITE transactions "
      ∷ "accept reads AND data writes in any order: mix `match`/`fetch` with "
      ∷ "`insert`/`delete`/`update` freely within the same transaction. Reads see your "
      ∷ "in-tx writes (read-your-writes). Schema statements "
      ∷ "(`define`/`undefine`/`redefine`) are NOT permitted here — open a schema "
      ∷ "transaction for those." ∷ [])
    ∷ format (
        "End with final `commit(session_id=...)` to persist and close, or "
        ∷ "`rollback(session_id=...)` to discard. A write that reaches TypeDB's write "
        ∷ "pipeline and fails will ABORT the transaction automatically; you'll then need "
        ∷ "to open a new one." ∷ [])
    ∷ format (
        "Prefer small conceptual batches. If more write work remains and the work does "
        ∷ "not need to land atomically, use `checkpoint(session_id=...)` to commit this "
        ∷ "batch and immediately reopen a fresh WRITE transaction." ∷ [])
    ∷ format ("Open transaction is on database `" ∷ db ∷ "`." ∷ [])
    ∷ []

unfoldable pub after_open_schema : String → List String
after_open_schema db =
    format (
      "Submit TypeQL with `query(session_id=..., query=\"...\")`. SCHEMA transactions "
      ∷ "are the most permissive kind: they accept `define`/`undefine`/`redefine` AND "
      ∷ "data writes (`insert`/`delete`/`update`) AND reads (`match`/`fetch`) in any "
      ∷ "order within the same transaction. You do NOT need to commit and reopen to "
      ∷ "run a read query — just issue another `query` call on this same session." ∷ [])
    ∷ format (
        "End with `commit(session_id=...)` to persist, or `rollback(session_id=...)` "
        ∷ "to discard. After a schema commit, THIS session can continue opening "
        ∷ "transactions on `" ∷ db ∷ "` without re-reading schema; other sessions must call "
        ∷ "`get_schema(session_id=..., database=\"" ∷ db ∷ "\")` again." ∷ [])
    ∷ format (
        "On TypeDB 3.12+, include or update relevant `@doc` and `@meta` annotations in "
        ∷ "the same schema transaction as semantic schema changes. Adding a new "
        ∷ "annotation to an existing schema element uses `define`; use `redefine` only "
        ∷ "to replace an existing annotation. Useful `@meta` keys include `agent:usage`, "
        ∷ "`agent:example-read`, `agent:example-write`, `agent:common-mistake`, "
        ∷ "`agent:key-attribute`, `agent:role-constraints`, `agent:write-workflow`, and "
        ∷ "`agent:deprecation-note`." ∷ [])
    ∷ format (
        "Prefer small conceptual schema layers. If more schema work remains and the "
        ∷ "work does not need to land atomically, use `checkpoint(session_id=...)` to "
        ∷ "commit this layer and immediately reopen a fresh SCHEMA transaction. If this "
        ∷ "is the final layer, use `commit(session_id=...)` instead." ∷ [])
    ∷ format ("Open transaction is on database `" ∷ db ∷ "`." ∷ [])
    ∷ []

unfoldable pub after_query_ok : TxKind → String → List String
after_query_ok read db =
    format (
      "Continue with more `query(session_id=..., ...)` calls on this READ "
      ∷ "transaction. Reads only — `insert`/`delete`/`update` and "
      ∷ "`define`/`undefine`/`redefine` will be rejected here." ∷ [])
    ∷ format (
        "Close with `rollback(session_id=...)` when done (READ transactions cannot be "
        ∷ "committed)." ∷ [])
    ∷ []
after_query_ok write db =
    format (
      "Continue with more `query(session_id=..., ...)` calls on this WRITE "
      ∷ "transaction. Reads and data writes can be interleaved freely; reads see your "
      ∷ "in-tx writes. Schema statements are not permitted here." ∷ [])
    ∷ format (
        "Use `checkpoint(session_id=...)` after a completed conceptual write batch "
        ∷ "when more work remains, or final `commit(session_id=...)` to persist and "
        ∷ "close; use `rollback(session_id=...)` to discard." ∷ [])
    ∷ []
after_query_ok schema db =
    format (
      "Continue with more `query(session_id=..., ...)` calls on this SCHEMA "
      ∷ "transaction. You can interleave schema statements "
      ∷ "(`define`/`undefine`/`redefine`), data writes, and reads (`match`/`fetch`) "
      ∷ "without committing in between." ∷ [])
    ∷ format (
        "Use `checkpoint(session_id=...)` after a completed conceptual schema layer "
        ∷ "when more work remains, or final `commit(session_id=...)` to persist and "
        ∷ "close; use `rollback(session_id=...)` to discard. On TypeDB 3.12+, update "
        ∷ "relevant `@doc`/`@meta` annotations with schema changes. After a schema "
        ∷ "commit/checkpoint, THIS session can continue opening transactions on `" ∷ db
        ∷ "` without re-reading schema; other sessions must call "
        ∷ "`get_schema(session_id=..., database=\"" ∷ db ∷ "\")` again." ∷ [])
    ∷ []

abbrev open_tool : TxKind → String
open_tool write = "open_write"
open_tool schema = "open_schema"
open_tool read = "open_read"

unfoldable pub after_checkpoint_reopen_failed : TxKind → String → List String
after_checkpoint_reopen_failed kind db =
    format (
      "Do NOT retry `checkpoint`: the previous transaction already committed and "
      ∷ "this session now has no open transaction. When TypeDB is reachable, call `"
      ∷ open_tool kind
      ∷ "(session_id=..., database=\""
      ∷ db
      ∷ "\")` to continue."
      ∷ [])
    ∷ format (
        "If you need to verify what persisted before continuing, call "
        ∷ "`read_once(session_id=..., database=\"" ∷ db ∷ "\", query=...)`." ∷ [])
    ∷ format (
        "If reopening keeps failing, surface upstream unavailability to the "
        ∷ "human/operator rather than looping." ∷ [])
    ∷ []

unfoldable pub after_checkpoint_ok : TxKind → String → List String
after_checkpoint_ok kind db =
    (format (
        "Checkpoint succeeded on `"
        ∷ db
        ∷ "` and a fresh "
        ∷ debug kind
        ∷ " transaction is already open. Continue with `query(session_id=..., "
        ∷ "query=...)`."
        ∷ [])
      ∷ format (
          "When the next conceptual batch is complete, call `checkpoint(session_id=...)` "
          ∷ "again only if more work remains; otherwise use final `commit(session_id=...)` "
          ∷ "to persist and close without reopening another transaction." ∷ [])
      ∷ [])
    ++ (if is_schema kind
        then format (
            "This session kept its schema-read gate for `" ∷ db
            ∷ "`; other sessions must call `get_schema(session_id=..., database=\"" ∷ db
            ∷ "\")` again before opening further transactions. Keep `@doc`/`@meta` "
            ∷ "annotations current with schema changes." ∷ [])
          ∷ []
        else [])

unfoldable pub after_commit_ok : TxKind → String → List String
after_commit_ok kind db =
    (if is_schema kind
      then format (
          "This session kept its schema-read gate for `" ∷ db
          ∷ "` because it committed the schema change. Other sessions must call "
          ∷ "`get_schema(session_id=..., database=\"" ∷ db
          ∷ "\")` again before opening further transactions on that database." ∷ [])
        ∷ []
      else [])
    ++ (format (
          "Final commit succeeded and closed the transaction. Verify with "
          ∷ "`read_once(session_id=..., ...)` or open another transaction with `open_read` "
          ∷ "/ `open_write` / `open_schema` only when you are ready for a new unit of work." ∷ [])
        ∷ format (
            "If more write/schema work on the same database remains next time, use "
            ∷ "`checkpoint(session_id=...)` instead of separate `commit` + `open_*` calls." ∷ [])
        ∷ format (
            "Or call `get_schema(session_id=..., database=<other>)` if you want to work on "
            ∷ "a different database." ∷ [])
        ∷ [])
