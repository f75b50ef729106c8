-- ===== src/Tools/Transactions/Checkpoint.antt =====
-- What `checkpoint` leaves behind.
use typedb_mcp.Prelude.{
  String, length, ◌≡◌, ◌⊎◌, Bool, true, false, Option, none, some, List, ◌∷◌, arith,
}
use typedb_mcp.Kinds.{TxKind, is_read}
use typedb_mcp.Wire.{
  Env, Wire, Call, DriverTransaction, Reply, ok, err, opens, commits, commit, open_transaction,
}
use typedb_mcp.Session.{SessionState, OpenTx, stash_open_tx}
use typedb_mcp.Envelope.{Verdict, success}
use typedb_mcp.Tools.Transactions.{checkpoint_window}

-- The driver's transaction that an opening after these calls yields.
abbrev opened_after : String → TxKind → List Call → DriverTransaction
opened_after database kind calls = record {
  handle = length calls;
  database = database;
  kind = kind;
}

-- The transaction is the one that the reopening after `calls` yielded, on the same database and of the
-- same kind.
abbrev pub IsReopened : OpenTx → List Call → Option OpenTx → Type 0
IsReopened tx calls none = ⊥
IsReopened tx calls (some t) =
    (t.transaction ≡ opened_after tx.database tx.kind calls)
    × (t.database ≡ tx.database)
    × (t.kind ≡ tx.kind)

abbrev is_success : Verdict → Bool
is_success (success result moves) = true
is_success _ = false

abbrev IsOk : {A : Type 0} → Reply A → Type 0
IsOk (ok a) = Unit {0}
IsOk (err d) = ⊥

abbrev IsErr : {A : Type 0} → Reply A → Type 0
IsErr (ok a) = ⊥
IsErr (err d) = Unit {0}

-- The three ends of a checkpoint: the commit fails, the reopening fails, or both succeed.
abbrev pub Checkpointed : Env → OpenTx → List Call → Verdict → Option OpenTx → List Call → Type 0
Checkpointed e tx before verdict after calls =
    let committed : List Call = commits tx.transaction ∷ before in
    let reopened : List Call = opens tx.database tx.kind ∷ committed in
    ((is_success verdict ≡ false)
      × (after ≡ none)
      × (calls ≡ committed)
      × IsErr (e.on_commit committed))
    ⊎ ((is_success verdict ≡ false)
        × (after ≡ none)
        × (calls ≡ reopened)
        × IsOk (e.on_commit committed)
        × IsErr (e.on_open reopened))
    ⊎ ((is_success verdict ≡ true)
        × IsReopened tx committed after
        × (calls ≡ reopened)
        × IsOk (e.on_commit committed)
        × IsOk (e.on_open reopened))

-- The window of `checkpoint` with a WRITE or SCHEMA transaction commits it. If the server refuses that,
-- the verdict is no success and no transaction is left. Otherwise it opens one on the same database and
-- of the same kind: if the server refuses that, the verdict is no success and no transaction is left,
-- else the verdict is a success and the session has the driver's new transaction, not the committed one. There is no other call.
pub checkpoint_window-Checkpointed :
    (e : Env) (s : SessionState) (x : Wire) (tx : OpenTx)
    → s.tx ≡ some tx
    → is_read tx.kind ≡ false
    → let r = checkpoint_window e s x in Checkpointed e tx x.trace r.0.verdict r.1.tx r.2.trace
unfolding checkpoint_window commit open_transaction stash_open_tx
checkpoint_window-Checkpointed e s x tx h k = ground arith
