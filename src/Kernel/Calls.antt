-- ===== src/Kernel/Calls.antt =====
-- Which calls `with_owned_tx` makes, by the outcome of the closure.
use typedb_mcp.Prelude.{
  ◌≡◌, ◌≢◌, ◌⊎◌, inl, inr, refl, ap, ◌∙◌, String, Bool, true, false, not, Option, none, some, List,
  [], ◌∷◌, arith, has,
}
use typedb_mcp.Kinds.{TxKind}
use typedb_mcp.Wire.{
  Env, Wire, Call, opens, commits, rolls_back, made, Reply, ok, err, DriverTransaction, commit,
  rollback,
}
use typedb_mcp.Session.{SessionState, snapshot}
use typedb_mcp.Session.Store.{World, done, M, ◌>>=◌, ◌>>◌, pure, put, calling}
use typedb_mcp.Session.Store.Runs.{locked_lem}
use typedb_mcp.Session.Store.Invalidate.{put_field, invalidate-Unseen}
use typedb_mcp.Envelope.{
  CallToolResult, Moves, Verdict, envelope, envelope_ok, envelope_err, envelope_state_error,
  conclude,
}
use typedb_mcp.Tools.Transactions.{changed_schema, invalidate}
use typedb_mcp.Tools.Discipline.Databases.{looked, put_same}
use typedb_mcp.Tools.Discipline.Delete.{conclude_lem}
use typedb_mcp.Tools.Queries.Retriable.{IsRefused}
use typedb_mcp.Kernel.Cases.{
  own_tx, given, ending, is_ok, succeeds, is_failure, Cases, owned_tx_window_keeps,
  owned_tx_window-Cases,
}
use typedb_mcp.Kernel.{
  Tried, fine, failed, TxOutcome, commit_with, rollback_with, Closure, Owned, ran, owned_tx_window,
  after_commit, finish_owned, with_owned_tx,
}

-- What the helper leaves behind once the session's lock is given back.
record Finished (is_error : Bool) (calls : List Call) (arcs : String → SessionState)
    (a : CallToolResult) (v : World) : Type 0 where
  error_same : a.is_error ≡ is_error
  transactions : (j : String) → (v.arcs j).tx ≡ (arcs j).tx
  trace : v.wire.trace ≡ calls

abbrev Finishes : Bool → List Call → M CallToolResult → World → Type 0
Finishes is_error calls m u =
    (a : CallToolResult) × (v : World) × (m u ≡ done a v) × Finished is_error calls u.arcs a v

envelope_error :
    (e : Env) (id : String) (s : SessionState) (v : Verdict)
    → (envelope e (snapshot id s) v).is_error ≡ is_failure v
unfolding envelope envelope_ok envelope_err envelope_state_error
envelope_error e id s v = ground arith

conclude-Finishes :
    (e : Env) (sid : String) (verdict : Verdict) (u : World)
    → u.held ≡ []
    → Finishes (is_failure verdict) u.wire.trace (conclude e sid verdict) u
conclude-Finishes e sid verdict u f = (
  envelope e (snapshot sid (u.arcs sid)) verdict,
  looked sid u,
  conclude_lem e sid verdict u (rw f (unfold has in refl)),
  record {
    error_same = envelope_error e sid (u.arcs sid) verdict;
    transactions = λ j. ap (λ s. s.tx) (put_same sid u.arcs j);
    trace = refl;
  },
)

invalidate-Finishes :
    (e : Env) (sid : String) (o : Option String) (verdict : Verdict) (u : World)
    → u.held ≡ []
    → u.store_held ≡ false
    → Finishes (is_failure verdict) u.wire.trace (invalidate o sid >> conclude e sid verdict) u
unfolding ◌>>◌ pure
invalidate-Finishes e sid none verdict u f s = conclude-Finishes e sid verdict u f
invalidate-Finishes e sid (some database) verdict u f s =
    let (v, run, r) = invalidate-Unseen database sid u f s in
    let (a, y, run', q) = conclude-Finishes e sid verdict v (r.held_same ∙ f) in
    (
      a,
      y,
      rw run run',
      record {
        error_same = q.error_same;
        transactions = λ j. q.transactions j ∙ r.transactions j;
        trace = q.trace ∙ ap (λ x. x.trace) r.wire_same;
      },
    )

after_commit-Finishes :
    (e : Env) (sid database : String) (kind : TxKind) (hints : Moves) (json : String)
    (r : Reply (Unit {0})) (u : World)
    → u.held ≡ []
    → u.store_held ≡ false
    → Finishes (not (is_ok r)) u.wire.trace (after_commit e sid database kind hints json r) u
after_commit-Finishes e sid database kind hints json (ok t) u f s =
    invalidate-Finishes e sid (changed_schema kind database) _ u f s
after_commit-Finishes e sid database kind hints json (err d) u f s = conclude-Finishes e sid _ u f

ran-Finishes :
    (e : Env) (sid database : String) (kind : TxKind) (hints : Moves) (t : DriverTransaction)
    (r : Tried TxOutcome) (u : World)
    → u.held ≡ []
    → u.store_held ≡ false
    → Finishes
        (not (succeeds e r t u.wire.trace))
        (ending r t ∷ u.wire.trace)
        (finish_owned e sid database kind hints (ran t r))
        u
unfolding ◌>>=◌ ◌>>◌ calling commit rollback
ran-Finishes e sid database kind hints t (fine (commit_with json)) u f s =
    after_commit-Finishes e sid database kind hints json _
      (record u { wire = made (commits t) u.wire }) f s
ran-Finishes e sid database kind hints t (fine (rollback_with json)) u f s =
    conclude-Finishes e sid _ (record u { wire = made (rolls_back t) u.wire }) f
ran-Finishes e sid database kind hints t (failed x) u f s =
    conclude-Finishes e sid _ (record u { wire = made (rolls_back t) u.wire }) f

-- What `with_owned_tx` answers and which calls it has made.
abbrev pub OwnedCalls :
    Env → String → TxKind → Closure TxOutcome → SessionState → Wire → Bool → List Call → Type 0
OwnedCalls e database kind f s x is_error calls =
    ((is_error ≡ true) × (calls ≡ x.trace) × ((s.tx ≢ none) ⊎ (has database s.schema_seen ≡ false)))
    ⊎ ((is_error ≡ true)
        × (calls ≡ opens database kind ∷ x.trace)
        × IsRefused (e.on_open (opens database kind ∷ x.trace)))
    ⊎ (let t = own_tx database kind x.trace in
        let r = given database kind f x in
        (s.tx ≡ none)
        × (has database s.schema_seen ≡ true)
        × (is_error ≡ not (succeeds e r.0 t r.1.trace))
        × (calls ≡ ending r.0 t ∷ r.1.trace))

owned_Finishes :
    (e : Env) (sid database : String) (kind : TxKind) (hints : Moves) (f : Closure TxOutcome)
    (s : SessionState) (x : Wire) (o : Owned) (u : World)
    → u.held ≡ []
    → u.store_held ≡ false
    → Cases e database kind f s x o u.wire
    → (a : CallToolResult) × (v : World) × (finish_owned e sid database kind hints o u ≡ done a v)
      × ((j : String) → (v.arcs j).tx ≡ (u.arcs j).tx)
      × OwnedCalls e database kind f s x a.is_error v.wire.trace
owned_Finishes e sid database kind hints f s x o u free store
      (inl (verdict, q, bad, calls, closed)) =
    let (a, v, run, r) = conclude-Finishes e sid verdict u free in
    (a, v, rw q run, r.transactions, inl (r.error_same ∙ bad, r.trace ∙ calls, closed))
owned_Finishes e sid database kind hints f s x o u free store
      (inr (inl (verdict, q, bad, calls, refused))) =
    let (a, v, run, r) = conclude-Finishes e sid verdict u free in
    (a, v, rw q run, r.transactions, inr (inl (r.error_same ∙ bad, r.trace ∙ calls, refused)))
owned_Finishes e sid database kind hints f s x o u free store
      (inr (inr (no_tx, seen, q, wire_after))) =
    let t : DriverTransaction = own_tx database kind x.trace in
    let o' : Tried TxOutcome = (given database kind f x).0 in
    let (a, v, run, r) = ran-Finishes e sid database kind hints t o' u free store in
    let calls = ap (λ y. y.trace) wire_after in
    (
      a,
      v,
      rw q run,
      r.transactions,
      inr (
          inr (
            no_tx,
            seen,
            r.error_same ∙ ap (λ l. not (succeeds e o' t l)) calls,
            r.trace ∙ ap (λ l. ending o' t ∷ l) calls,
          )),
    )

-- With no lock held, `with_owned_tx` answers, and afterwards every session has the transaction that it
-- had before. It made no call where the session has a transaction or has not read the schema, only the
-- opening where the server refuses that, and answers with an error then. Otherwise the closure got the
-- new transaction, and the one call after the closure's own commits it if the closure asked for that
-- and rolls it back if it asked for that or failed; the answer is an error exactly when the closure
-- failed or the commit did.
pub with_owned_tx_calls :
    (e : Env) (sid database : String) (kind : TxKind) (hints : Moves) (f : Closure TxOutcome)
    (w : World)
    → w.held ≡ []
    → w.store_held ≡ false
    → (a : CallToolResult) × (v : World) × (with_owned_tx e sid database kind hints f w ≡ done a v)
      × ((j : String) → (v.arcs j).tx ≡ (w.arcs j).tx)
      × OwnedCalls e database kind f (w.arcs sid) w.wire a.is_error v.wire.trace
unfolding with_owned_tx ◌>>=◌
with_owned_tx_calls e sid database kind hints f w free store =
    let r = owned_tx_window e database kind f (w.arcs sid) w.wire in
    let c = owned_tx_window-Cases e database kind f (w.arcs sid) w.wire in
    let u : World = record w { arcs = put sid r.1 w.arcs; wire = r.2 } in
    let (a, v, run, same, calls) =
      owned_Finishes e sid database kind hints f (w.arcs sid) w.wire r.0 u free store c in
    (
      a,
      v,
      rw (locked_lem sid (owned_tx_window e database kind f) w (rw free (unfold has in refl))) run,
      λ j.
          same j
          ∙ put_field (λ s. s.tx) sid r.1 w.arcs j
              (ap (λ s. s.tx) (owned_tx_window_keeps e database kind f (w.arcs sid) w.wire)),
      calls,
    )
