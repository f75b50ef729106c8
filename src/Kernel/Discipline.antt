-- ===== src/Kernel/Discipline.antt =====
-- The helpers never wait for a lock and keep the invariant of the process, if the closure keeps the
-- discipline towards the server.
use typedb_mcp.Prelude.{◌≡◌, String, false, some, arith, All, length, suc, inl, inr, Option-cases}
use typedb_mcp.Errors.{ErrorClass, to_class}
use typedb_mcp.Session.{SessionState, OpenTx}
use typedb_mcp.Kinds.{TxKind, read}
use typedb_mcp.Wire.{opens, made, open_transaction, now, Env, Wire, DriverTransaction, close}
use typedb_mcp.Session.Store.Runs.{Runs, Keeps, IsLawful, IsFaithful}
use typedb_mcp.Envelope.{Moves}
use typedb_mcp.Tools.Discipline.Handlers.{handler_rules}
use typedb_mcp.Tools.Queries.{keep_if_retriable}
use typedb_mcp.Kernel.{
  Tried, fine, failed, Closure, read_tx_window, with_read_tx, current_tx_window, with_current_tx,
}

-- The closure adds lawful calls only.
abbrev pub IsOrderly : {A : Type 0} → Closure A → Type 0
IsOrderly f =
    (t : DriverTransaction) (x : Wire) → All IsLawful x.trace → All IsLawful (f t x).1.trace

Keeps-read_tx_window :
    (e : Env) (database : String) (hints : Moves) (f : Closure String)
    → IsOrderly f
    → Keeps (read_tx_window e database hints f)
unfolding read_tx_window open_transaction close
Keeps-read_tx_window e database hints f k = record {
  at = λ s x h l. ground (
    arith,
    k (record { handle = length x.trace; database = database; kind = read })
        (made (opens database read) x),
  );
}

-- `with_read_tx` with a closure that makes lawful calls only never waits for a lock and keeps the
-- invariant of the process.
pub Runs-with_read_tx :
    (e : Env) (sid database : String) (hints : Moves) (f : Closure String)
    → IsOrderly f
    → Runs false false (with_read_tx e sid database hints f)
unfolding with_read_tx
Runs-with_read_tx e sid database hints f k = search (handler_rules, Keeps-read_tx_window) depth 9

-- As for a closure of one transaction, whatever its kind and database are.
abbrev pub IsOrderlyCurrent :
    (DriverTransaction → TxKind → String → Wire → Tried String × Wire) → Type 0
IsOrderlyCurrent f =
    (t : DriverTransaction) (kind : TxKind) (database : String) (x : Wire)
    → All IsLawful x.trace
    → All IsLawful (f t kind database x).1.trace

keep_if_retriable-IsFaithful :
    (class : ErrorClass) (s : SessionState)
    → IsFaithful s.tx
    → IsFaithful (keep_if_retriable class s).tx
unfolding keep_if_retriable
keep_if_retriable-IsFaithful class s h = ground arith

-- The state and the wire after the closure of `with_current_tx`.
abbrev left_by : Tried String → SessionState → SessionState
left_by (fine json) s = s
left_by (failed y) s = keep_if_retriable (to_class y) s

abbrev stamped : Env → SessionState → OpenTx → Wire → SessionState
stamped e s tx x = record s { tx = some (record tx { last_activity = e.clock x.readings }) }

abbrev after_reading : Wire → Wire
after_reading x = record x { readings = suc x.readings }

module _ (e : Env) (hints : Moves)
    (f : DriverTransaction → TxKind → String → Wire → Tried String × Wire) (s : SessionState)
    (x : Wire) where
  current_tx_window_open :
      (tx : OpenTx)
      → s.tx ≡ some tx
      → let r = f tx.transaction tx.kind tx.database (after_reading x) in
        ((current_tx_window e hints f s x).1 ≡ left_by r.0 (stamped e s tx x))
        × ((current_tx_window e hints f s x).2 ≡ r.1)
  unfolding current_tx_window now keep_if_retriable
  current_tx_window_open tx h = rw h (ground arith)

left_by-IsFaithful :
    (r : Tried String) (s : SessionState) → IsFaithful s.tx → IsFaithful (left_by r s).tx
left_by-IsFaithful (fine json) s h = h
left_by-IsFaithful (failed y) s h = keep_if_retriable-IsFaithful (to_class y) s h

Keeps-current_tx_window :
    (e : Env) (hints : Moves) (f : DriverTransaction → TxKind → String → Wire → Tried String × Wire)
    → IsOrderlyCurrent f
    → Keeps (current_tx_window e hints f)
Keeps-current_tx_window e hints f k = record {
  at = λ s x h l. elim (Option-cases s.tx) [
    | inl shut ↦ unfold current_tx_window in rw shut (rw shut at h, l)
    | inr (tx, q) ↦
        let h' : IsFaithful (some tx) = rw q at h in
        rw (current_tx_window_open e hints f s x tx q).0 (
          rw (current_tx_window_open e hints f s x tx q).1
            (left_by-IsFaithful _ (stamped e s tx x) h', k tx.transaction tx.kind tx.database _ l))
  ];
}

-- `with_current_tx` with a closure that makes lawful calls only never waits for a lock and keeps
-- the invariant of the process.
pub Runs-with_current_tx :
    (e : Env) (sid : String) (hints : Moves)
    (f : DriverTransaction → TxKind → String → Wire → Tried String × Wire)
    → IsOrderlyCurrent f
    → Runs false false (with_current_tx e sid hints f)
unfolding with_current_tx
Runs-with_current_tx e sid hints f k = search (handler_rules, Keeps-current_tx_window) depth 9
