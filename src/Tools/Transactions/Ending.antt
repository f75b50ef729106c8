-- ===== src/Tools/Transactions/Ending.antt =====
-- What `rollback` leaves behind.
use typedb_mcp.Prelude.{
  ◌≡◌, ap, ◌∙◌, String, false, none, some, List, ◌∷◌, ◌==◌, arith, if◌then◌else◌,
}
use typedb_mcp.Kinds.{is_read}
use typedb_mcp.Wire.{Env, Wire, Call, closes, rolls_back, rollback, close}
use typedb_mcp.Session.{SessionState, OpenTx, snapshot}
use typedb_mcp.Session.Store.{World, done}
use typedb_mcp.Session.Store.Resolve.{IsLive}
use typedb_mcp.Envelope.{CallToolResult, envelope, envelope_ok}
use typedb_mcp.Tools.Windowed.{live_window, found_state, found_wire}
use typedb_mcp.Tools.Transactions.{rollback_window, do_rollback}

-- The call that releases a transaction.
abbrev pub release_call : OpenTx → Call
release_call tx = if is_read tx.kind then closes tx.transaction else rolls_back tx.transaction

-- The call that releases the session's transaction, where it has one.
abbrev pub release_calls : SessionState → List Call → List Call
release_calls s calls = elim s.tx [ none ↦ calls | some tx ↦ release_call tx ∷ calls ]

module _ (e : Env) (s : SessionState) (x : Wire) where
  rollback_window_ends :
      ((rollback_window e s x).1.tx ≡ none)
      × ((rollback_window e s x).1.schema_seen ≡ s.schema_seen)
  unfolding rollback_window rollback close
  rollback_window_ends = (ground arith, ground arith)

  rollback_window-release_calls : (rollback_window e s x).2.trace ≡ release_calls s x.trace
  unfolding rollback_window rollback close
  rollback_window-release_calls = ground arith

  rollback_window_succeeds :
      (id : String) (t : SessionState)
      → (envelope e (snapshot id t) (rollback_window e s x).0).is_error ≡ false
  unfolding rollback_window envelope envelope_ok
  rollback_window_succeeds id t = ground arith

pub record RolledBack (sid : String) (w : World) (a : CallToolResult) (v : World) : Type 0 where
  pub succeeded : a.is_error ≡ false
  pub ended : (v.arcs sid).tx ≡ none
  pub gates : (v.arcs sid).schema_seen ≡ (w.arcs sid).schema_seen
  pub others : (j : String) → (sid == j) ≡ false → v.arcs j ≡ w.arcs j
  pub calls : v.wire.trace ≡ release_calls (w.arcs sid) w.wire.trace

-- In a live session `rollback` answers with a success, also where no transaction is open and where the
-- server refuses the release. Afterwards the session has no transaction, its schema gates and all other
-- sessions are as before, and the one call to the server closed the transaction if it was a READ one
-- and rolled it back otherwise; without a transaction there was no call.
pub do_rollback_ends :
    (e : Env) (sid : String) (w : World)
    → IsLive e sid w
    → (a : CallToolResult) × (v : World) × (do_rollback e sid w ≡ done a v) × RolledBack sid w a v
unfolding do_rollback
do_rollback_ends e sid w l =
    let (a, v, run, r) = live_window e sid (rollback_window e) w l in
    let s : SessionState = found_state e sid w in
    (
      a,
      v,
      run,
      record {
        succeeded = rw r.answer (rollback_window_succeeds e s (found_wire w) sid _);
        ended = ap (λ t. t.tx) r.own ∙ (rollback_window_ends e s (found_wire w)).0;
        gates = ap (λ t. t.schema_seen) r.own ∙ (rollback_window_ends e s (found_wire w)).1;
        others = r.others;
        calls = ap (λ x. x.trace) r.wire_after ∙ rollback_window-release_calls e s (found_wire w);
      },
    )
