-- ===== src/Tools/Queries/Retriable.antt =====
-- What the error envelopes of the query tools say of the session's transaction.
use typedb_mcp.Prelude.{
  ◌≡◌, ap, ◌∙◌, sym, String, Bool, true, false, Option, none, some, arith, List, ◌∷◌, ◌==◌, ◌⊎◌,
  length,
}
use typedb_mcp.Kinds.{read}
use typedb_mcp.Errors.{retriable_in_same_tx}
use typedb_mcp.Wire.{
  Env, Wire, Call, opens, queries, closes, query, now, open_transaction, close, Reply, ok, err,
  DriverTransaction,
}
use typedb_mcp.Session.{SessionState, SessionSnapshot, snapshot}
use typedb_mcp.Session.Store.{World, done}
use typedb_mcp.Session.Store.Resolve.{IsLive}
use typedb_mcp.Envelope.{
  CallToolResult, Verdict, envelope, envelope_ok, envelope_err, envelope_state_error,
}
use typedb_mcp.Tools.Windowed.{live_window, found_state, found_wire}
use typedb_mcp.Tools.Queries.{
  keep_if_retriable, materialize, query_window, do_query, read_once_window, do_read_once,
}

abbrev pub is_open : SessionState → Bool
is_open s = elim s.tx [ some tx ↦ true | none ↦ false ]

-- The flag of the answer's error, where there is one.
abbrev pub flag : CallToolResult → Option Bool
flag a = elim a.content.error [ some p ↦ some p.retriable_in_same_tx | none ↦ none ]

abbrev pub IsTold : Option Bool → Bool → Type 0
IsTold (some b) still = b ≡ still
IsTold none still = Unit {0}

query_window-flag :
    (e : Env) (text : String) (s : SessionState) (x : Wire) (snap : SessionSnapshot)
    → IsTold
        (flag (envelope e snap (query_window e text s x).0))
        (is_open (query_window e text s x).1)
unfolding query_window keep_if_retriable materialize query now envelope envelope_ok envelope_err
    envelope_state_error retriable_in_same_tx
query_window-flag e text s x snap = ground arith

query_window-gates :
    (e : Env) (text : String) (s : SessionState) (x : Wire)
    → (query_window e text s x).1.schema_seen ≡ s.schema_seen
unfolding query_window keep_if_retriable materialize query now
query_window-gates e text s x = ground arith

-- The calls of a query: one where a transaction is open, none otherwise.
abbrev pub query_calls : String → SessionState → List Call → List Call
query_calls text s calls = elim s.tx [
  | some tx ↦ queries tx.transaction text ∷ calls
  | none ↦ calls
]

query_window-query_calls :
    (e : Env) (text : String) (s : SessionState) (x : Wire)
    → (query_window e text s x).2.trace ≡ query_calls text s x.trace
unfolding query_window keep_if_retriable materialize query now
query_window-query_calls e text s x = ground arith

envelope_session :
    (e : Env) (snap : SessionSnapshot) (v : Verdict) → (envelope e snap v).content.session ≡ snap
unfolding envelope envelope_ok envelope_err envelope_state_error
envelope_session e snap v = ground arith

-- What `query` leaves behind.
pub record Queried (sid text : String) (w : World) (a : CallToolResult) (v : World) : Type 0 where
  pub told : IsTold (flag a) (is_open (v.arcs sid))
  pub block : a.content.session ≡ snapshot sid (v.arcs sid)
  pub gates : (v.arcs sid).schema_seen ≡ (w.arcs sid).schema_seen
  pub others : (j : String) → (sid == j) ≡ false → v.arcs j ≡ w.arcs j
  pub calls : v.wire.trace ≡ query_calls text (w.arcs sid) w.wire.trace

pub do_query_told :
    (e : Env) (sid text : String) (w : World)
    → IsLive e sid w
    → (a : CallToolResult) × (v : World) × (do_query e sid text w ≡ done a v)
      × Queried sid text w a v
unfolding do_query
do_query_told e sid text w l =
    let (a, v, run, r) = live_window e sid (query_window e text) w l in
    (
      a,
      v,
      run,
      record {
        told =
            rw r.answer
              (rw r.own (query_window-flag e text (found_state e sid w) (found_wire w) _));
        block = rw r.answer (envelope_session e _ _ ∙ ap (snapshot sid) (sym r.own));
        gates = ap (λ s. s.schema_seen) r.own ∙ query_window-gates e text _ _;
        others = r.others;
        calls = ap (λ x. x.trace) r.wire_after ∙ query_window-query_calls e text _ _;
      },
    )

-- Of a one-shot read: what the session is afterwards, and which calls were made.
read_once_keeps :
    (e : Env) (database text : String) (s : SessionState) (x : Wire)
    → (read_once_window e database text s x).1 ≡ s
unfolding read_once_window materialize open_transaction query close
read_once_keeps e database text s x = ground arith

abbrev pub opened_at : String → List Call → DriverTransaction
opened_at database calls = record { handle = length calls; database = database; kind = read }

abbrev pub IsRefused : {A : Type 0} → Reply A → Type 0
IsRefused (ok _) = ⊥
IsRefused (err _) = Unit {0}

abbrev pub IsReadOnce : Env → String → String → List Call → List Call → Type 0
IsReadOnce e database text before after =
    (after ≡ before)
    ⊎ ((after ≡ opens database read ∷ before)
        × IsRefused (e.on_open (opens database read ∷ before)))
    ⊎ (after
        ≡ closes (opened_at database before)
          ∷ queries (opened_at database before) text
          ∷ opens database read
          ∷ before)

IsReadOnce-calls :
    (e : Env) (database text : String) (s : SessionState) (x : Wire)
    → IsReadOnce e database text x.trace (read_once_window e database text s x).2.trace
unfolding read_once_window materialize open_transaction query close
IsReadOnce-calls e database text s x = ground arith

pub record ReadOnce (e : Env) (sid database text : String) (w : World) (a : CallToolResult)
    (v : World) : Type 0 where
  pub transaction : (v.arcs sid).tx ≡ (w.arcs sid).tx
  pub gates : (v.arcs sid).schema_seen ≡ (w.arcs sid).schema_seen
  pub others : (j : String) → (sid == j) ≡ false → v.arcs j ≡ w.arcs j
  pub block : a.content.session ≡ snapshot sid (v.arcs sid)
  pub calls : IsReadOnce e database text w.wire.trace v.wire.trace

-- In a live session `read_once` answers and leaves the session's transaction, its schema gates and all
-- other sessions as they were. Towards the server it did nothing, or asked for one READ transaction and was
-- refused, or opened one, put the one query to it and closed that transaction: none is left open.
pub do_read_once_leaves :
    (e : Env) (sid database text : String) (w : World)
    → IsLive e sid w
    → (a : CallToolResult) × (v : World) × (do_read_once e sid database text w ≡ done a v)
      × ReadOnce e sid database text w a v
unfolding do_read_once
do_read_once_leaves e sid database text w l =
    let (a, v, run, r) = live_window e sid (read_once_window e database text) w l in
    let kept = r.own ∙ read_once_keeps e database text (found_state e sid w) (found_wire w) in
    (
      a,
      v,
      run,
      record {
        transaction = ap (λ s. s.tx) kept;
        gates = ap (λ s. s.schema_seen) kept;
        others = r.others;
        block = rw r.answer (envelope_session e _ _ ∙ ap (snapshot sid) (sym r.own));
        calls =
            rw r.wire_after (IsReadOnce-calls e database text (found_state e sid w) (found_wire w));
      },
    )
