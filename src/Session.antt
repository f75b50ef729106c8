-- ===== src/Session.antt =====
-- crates/typedb-mcp-core/src/session.rs: what one session holds, and how a transaction is released. The
-- extension map of the library's consumers is not in the record: the kernel never reads it.
pub mod Store
use Prim.Native.String.{slice, ◌++◌}
use mathlib.Core.Option
use typedb_mcp.Prelude.{ℕ, String, Option, none, some, List, [], ◌∷◌}
use typedb_mcp.Kinds.{TxKind, read, write, schema}
use typedb_mcp.Wire.{DriverTransaction, Env, Wire, Reply, now, new_uuid, rollback, close}

pub record OpenTx : Type 0 where
  pub id : String
  pub database : String
  pub kind : TxKind
  pub transaction : DriverTransaction
  pub last_activity : ℕ

pub record SessionState : Type 0 where
  pub schema_seen : List String
  pub tx : Option OpenTx
  pub expires_at : ℕ

abbrev release_as : TxKind → Env → DriverTransaction → Wire → Reply (Unit {0}) × Wire
release_as read = close
release_as write = rollback
release_as schema = rollback

-- `OpenTx::release`
unfoldable pub release : Env → OpenTx → Wire → Reply (Unit {0}) × Wire
unfolding rollback close
release e tx w = release_as tx.kind e tx.transaction w

-- `stash_open_tx` of crates/typedb-mcp-core/src/core.rs
unfoldable pub stash_open_tx :
    Env → SessionState → String → TxKind → DriverTransaction → Wire → SessionState × Wire
unfolding now new_uuid
stash_open_tx e s database kind transaction w =
    let (u, w') = new_uuid e w in
    let (t, w'') = now e w' in
    (
      record s {
        tx = some (record {
          id = "tx_" ++ slice u 0 8;
          database = database;
          kind = kind;
          transaction = transaction;
          last_activity = t;
        });
      },
      w'',
    )

pub record OpenTxView : Type 0 where
  pub id : String
  pub kind : TxKind

-- The agent-facing session block. The state of an open transaction is always `Open`.
pub record SessionSnapshot : Type 0 where
  pub session_id : Option String
  pub database : Option String
  pub transaction : Option OpenTxView
  pub schema_seen_for : List String

-- `SessionSnapshot::default`
abbrev pub no_session : SessionSnapshot
no_session = record { session_id = none; database = none; transaction = none; schema_seen_for = [] }

-- `SessionStore::snapshot_arc`, with the session's lock held.
unfoldable pub snapshot : String → SessionState → SessionSnapshot
snapshot id s = record {
  session_id = some id;
  database = Option.map (λ (t : OpenTx). t.database) s.tx;
  transaction = Option.map (λ (t : OpenTx). record { id = t.id; kind = t.kind }) s.tx;
  schema_seen_for = s.schema_seen;
}
