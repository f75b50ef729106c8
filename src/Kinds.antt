-- ===== src/Kinds.antt =====
-- `TxKind` of crates/typedb-mcp-core/src/typedb.rs and `ExecutionContext` of
-- crates/typedb-mcp-core/src/core.rs.
use typedb_mcp.Prelude.{Bool, true, false}

pub data TxKind : Type 0 where
  read write schema : TxKind

pub TxKind-discrete : Discrete TxKind
TxKind-discrete = hlevel

-- `matches!(kind, TxKind::Read)` and `matches!(kind, TxKind::Schema)`
abbrev pub is_read : TxKind → Bool
is_read read = true
is_read _ = false

abbrev pub is_schema : TxKind → Bool
is_schema schema = true
is_schema _ = false

pub data ExecutionContext : Type 0 where
  unspecified stdio http : ExecutionContext

abbrev pub is_stdio : ExecutionContext → Bool
is_stdio stdio = true
is_stdio _ = false
