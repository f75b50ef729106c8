-- ===== src/Tools/Transactions.antt =====
-- `do_open_any`, `do_checkpoint`, `do_commit` and `do_rollback` of
-- crates/typedb-mcp-core/src/tools.rs.
pub mod Lifecycle
pub mod SchemaCommit
pub mod Ending
pub mod Checkpoint
use typedb_mcp.Prelude.{
  String, Bool, true, false, not, Option, none, some, List, if◌then◌else◌, has,
}
use typedb_mcp.Kinds.{TxKind, is_read, is_schema}
use typedb_mcp.Errors.{
  driver, to_class, unclassified, tx_already_open, schema_not_read, no_tx_open, tx_is_read,
}
use typedb_mcp.Coordinator.{OperationCoordinator, is_reserved}
use typedb_mcp.Wire.{Env, Reply, ok, err, open_transaction, commit}
use typedb_mcp.Session.{SessionState, OpenTx, release, stash_open_tx}
use typedb_mcp.Session.Store.{
  M, ◌>>=◌, ◌>>◌, pure, Window, World, locked, invalidate_schema_seen_except,
}
use typedb_mcp.Envelope.{
  CallToolResult, Verdict, success, failure, state_error, conclude, opened, checkpointed, committed,
  rolled_back, after_open, after_checkpoint_ok, after_checkpoint_reopen_failed, after_commit_ok,
  after_rollback_ok, on_upstream_unavailable, on_error,
}
use typedb_mcp.Tools.{resolving}

unfoldable pub open_window : Env → Bool → String → TxKind → Window Verdict
unfolding open_transaction stash_open_tx
open_window e reserved database kind s x =
    if reserved then (state_error unclassified on_upstream_unavailable, s, x) else elim s.tx [
      | some tx ↦ (state_error tx_already_open (on_error tx_already_open none), s, x)
      | none ↦
          if not (has database s.schema_seen)
          then (state_error schema_not_read (on_error schema_not_read (some database)), s, x)
          else let (r, x') = open_transaction e database kind x in
            elim r [
              | err d ↦ (failure (driver d) (on_error (to_class (driver d)) (some database)), s, x')
              | ok t ↦
                  let (s', x'') = stash_open_tx e s database kind t x' in
                  (success opened (after_open kind database), s', x'')
            ]
    ]

-- The reservations are read while the session's lock is held; nothing of the window changes them.
unfoldable pub reading_reserved : {A : Type 0} → String → (Bool → M A) → M A
unfolding is_reserved
reading_reserved database k w = k (is_reserved w.coordinator database) w

unfoldable pub do_open_any : Env → String → String → TxKind → M CallToolResult
do_open_any e sid database kind = resolving e sid (do
  v ← reading_reserved database (λ reserved. locked sid (open_window e reserved database kind))
  conclude e sid v)

-- What a commit leaves to do: the answer, and the database whose schema it changed.
pub record Committed : Type 0 where
  pub verdict : Verdict
  pub changed : Option String

abbrev pub changed_schema : TxKind → String → Option String
changed_schema kind database = if is_schema kind then some database else none

unfoldable pub checkpoint_window : Env → Window Committed
unfolding commit open_transaction stash_open_tx
checkpoint_window e s x = elim s.tx [
  | none ↦
      (record { verdict = state_error no_tx_open (on_error no_tx_open none); changed = none }, s, x)
  | some tx ↦
      if is_read tx.kind
      then (
        record { verdict = state_error tx_is_read (on_error tx_is_read none); changed = none },
        s,
        x,
      )
      else let taken : SessionState = record s { tx = none } in
        let (r, x') = commit e tx.transaction x in
        elim r [
          | err d ↦ (
            record {
              verdict = failure (driver d) (on_error (to_class (driver d)) (some tx.database));
              changed = none;
            },
            taken,
            x',
          )
          | ok _ ↦
              let (o, x'') = open_transaction e tx.database tx.kind x' in
              elim o [
                | ok t ↦
                    let (s', x''') = stash_open_tx e taken tx.database tx.kind t x'' in
                    (
                      record {
                        verdict =
                            success (checkpointed tx.database tx.kind)
                              (after_checkpoint_ok tx.kind tx.database);
                        changed = changed_schema tx.kind tx.database;
                      },
                      s',
                      x''',
                    )
                | err d ↦ (
                  record {
                    verdict =
                        failure (driver d) (after_checkpoint_reopen_failed tx.kind tx.database);
                    changed = changed_schema tx.kind tx.database;
                  },
                  taken,
                  x'',
                )
              ]
        ]
]

unfoldable pub commit_window : Env → Window Committed
unfolding commit
commit_window e s x = elim s.tx [
  | none ↦
      (record { verdict = state_error no_tx_open (on_error no_tx_open none); changed = none }, s, x)
  | some tx ↦
      if is_read tx.kind
      then (
        record { verdict = state_error tx_is_read (on_error tx_is_read none); changed = none },
        s,
        x,
      )
      else let taken : SessionState = record s { tx = none } in
        let (r, x') = commit e tx.transaction x in
        elim r [
          | ok _ ↦ (
            record {
              verdict = success committed (after_commit_ok tx.kind tx.database);
              changed = changed_schema tx.kind tx.database;
            },
            taken,
            x',
          )
          | err d ↦ (
            record {
              verdict = failure (driver d) (on_error (to_class (driver d)) (some tx.database));
              changed = none;
            },
            taken,
            x',
          )
        ]
]

-- `if matches!(kind, TxKind::Schema) { …invalidate_schema_seen_except(…) }`
abbrev pub invalidate : Option String → String → M (Unit {0})
invalidate none sid = pure tt
invalidate (some database) sid = invalidate_schema_seen_except database sid

unfoldable pub do_checkpoint : Env → String → M CallToolResult
do_checkpoint e sid =
    resolving e sid
      (do c ← locked sid (checkpoint_window e); invalidate c.changed sid; conclude e sid c.verdict)

unfoldable pub do_commit : Env → String → M CallToolResult
do_commit e sid =
    resolving e sid
      (do c ← locked sid (commit_window e); invalidate c.changed sid; conclude e sid c.verdict)

unfoldable pub rollback_window : Env → Window Verdict
unfolding release
rollback_window e s x = elim s.tx [
  | none ↦ (success (rolled_back false) after_rollback_ok, s, x)
  | some tx ↦
      let (r, x') = release e tx x in
      (success (rolled_back true) after_rollback_ok, record s { tx = none }, x')
]

unfoldable pub do_rollback : Env → String → M CallToolResult
do_rollback e sid = resolving e sid (do v ← locked sid (rollback_window e); conclude e sid v)
