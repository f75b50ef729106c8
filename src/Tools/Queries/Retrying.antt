-- ===== src/Tools/Queries/Retrying.antt =====
-- A query that is sent again after an error, and a one-shot read that fails.
use typedb_mcp.Prelude.{
  ◌≡◌, refl, ap, ◌∙◌, sym, String, Bool, true, false, Option, some, none, List, ◌∷◌, arith, has,
  contains,
}
use typedb_mcp.Kinds.{read}
use typedb_mcp.Errors.{DriverError, driver, to_class, retriable_in_same_tx, no_tx_open, parse_error}
use typedb_mcp.Wire.{Env, Wire, Call, opens, queries, query, open_transaction, close, ok, err}
use typedb_mcp.Session.{SessionState, SessionSnapshot, snapshot}
use typedb_mcp.Session.Store.{World, done}
use typedb_mcp.Session.Store.Resolve.{IsLive}
use typedb_mcp.Envelope.{
  CallToolResult, on_error, failure, envelope, envelope_err, envelope_state_error,
}
use typedb_mcp.Envelope.NextMoves.{lines}
use typedb_mcp.Envelope.NextMoves.Failures.{on_error as catalogue}
use typedb_mcp.Envelope.NextMoves.Phrases.{any_said, open_phrases}
use typedb_mcp.Tools.Windowed.{live_window, found_state, found_wire}
use typedb_mcp.Tools.Queries.{materialize, query_window, do_query, read_once_window, do_read_once}
use typedb_mcp.Tools.Queries.Retriable.{is_open, flag, IsTold, opened_at, do_query_told}
use typedb_mcp.Tools.Queries.Advice.{class_of}

-- The answer to a query in a session that has no transaction.
pub record Unopened (a : CallToolResult) (before after : List Call) : Type 0 where
  pub class : class_of a ≡ some no_tx_open
  pub moves : a.content.next_moves ≡ on_error no_tx_open none
  pub calls : after ≡ before

query_window-Unopened :
    (e : Env) (text : String) (s : SessionState) (x : Wire) (snap : SessionSnapshot)
    → is_open s ≡ false
    → (class_of (envelope e snap (query_window e text s x).0) ≡ some no_tx_open)
      × ((envelope e snap (query_window e text s x).0).content.next_moves
          ≡ on_error no_tx_open none)
      × ((query_window e text s x).2.trace ≡ x.trace)
unfolding query_window envelope envelope_state_error
query_window-Unopened e text s x snap h = ground arith

do_query-Unopened :
    (e : Env) (sid text : String) (w : World)
    → IsLive e sid w
    → is_open (w.arcs sid) ≡ false
    → (a : CallToolResult) × (v : World) × (do_query e sid text w ≡ done a v)
      × Unopened a w.wire.trace v.wire.trace
unfolding do_query
do_query-Unopened e sid text w l h =
    let (a, v, run, r) = live_window e sid (query_window e text) w l in
    let (c, m, t) = query_window-Unopened e text (found_state e sid w) (found_wire w) _ h in
    (
      a,
      v,
      run,
      record {
        class = rw r.answer c;
        moves = rw r.answer m;
        calls = ap (λ x. x.trace) r.wire_after ∙ t;
      },
    )

done-answer : {A : Type 0} {a b : A} {v w : World} → done a v ≡ done b w → a ≡ b
done-answer h = cc

done-world : {A : Type 0} {a b : A} {v w : World} → done a v ≡ done b w → v ≡ w
done-world h = cc

IsTold-closed :
    (told : Option Bool) (still : Bool) → IsTold told still → told ≡ some false → still ≡ false
IsTold-closed none still h f = cc
IsTold-closed (some b) still h f = cc (h, f)

-- `query` answered with an error that is not retriable in the same transaction. While the
-- session lives, every query that is sent next, the same one again too, is refused with NO_TX_OPEN and
-- does not reach the server, whatever the advice of the first answer was.
pub do_query_again :
    (e : Env) (sid text again : String) (w v : World) (a : CallToolResult)
    → IsLive e sid w
    → do_query e sid text w ≡ done a v
    → flag a ≡ some false
    → IsLive e sid v
    → (b : CallToolResult) × (u : World) × (do_query e sid again v ≡ done b u)
      × Unopened b v.wire.trace u.wire.trace
do_query_again e sid text again w v a l run f k =
    let (a', v', run', q) = do_query_told e sid text w l in
    do_query-Unopened e sid again v k (
      ap (λ u. is_open (u.arcs sid)) (done-world (sym run ∙ run'))
      ∙ IsTold-closed _ _ q.told (ap flag (done-answer (sym run' ∙ run)) ∙ f))

-- What is told of a transaction that was never the session's.
pub record Misled (sid database : String) (a : CallToolResult) (v : World) : Type 0 where
  pub flagged : flag a ≡ some true
  pub said : any_said (lines a.content.next_moves) open_phrases ≡ true
  pub closed : (v.arcs sid).tx ≡ none

read_once_window-misled :
    (e : Env) (database text : String) (s : SessionState) (x : Wire) (d : DriverError)
    → s.tx ≡ none
    → has database s.schema_seen ≡ true
    → e.on_open (opens database read ∷ x.trace) ≡ ok tt
    → e.on_query (queries (opened_at database x.trace) text ∷ opens database read ∷ x.trace) ≡ err d
    → to_class (driver d) ≡ parse_error
    → ((read_once_window e database text s x).0
        ≡ failure (driver d) (on_error parse_error (some database)))
      × ((read_once_window e database text s x).1.tx ≡ none)
unfolding read_once_window materialize open_transaction query close
read_once_window-misled e database text s x d n g o q c = ground arith

parse_error-misled :
    (e : Env) (snap : SessionSnapshot) (d : DriverError) (database : String)
    → to_class (driver d) ≡ parse_error
    → let a = envelope e snap (failure (driver d) (on_error parse_error (some database))) in
      (flag a ≡ some true) × (any_said (lines a.content.next_moves) open_phrases ≡ true)
unfolding envelope envelope_err lines catalogue contains retriable_in_same_tx
parse_error-misled e snap d database c = (rw c refl, refl)

-- A one-shot read that the server refuses to parse, in a live session without a transaction that
-- has read the schema: the answer says that a transaction is still open and that the query can be retried in
-- it, though the session has no transaction.
pub do_read_once-Misled :
    (e : Env) (sid database text : String) (w : World) (d : DriverError)
    → IsLive e sid w
    → (w.arcs sid).tx ≡ none
    → has database (w.arcs sid).schema_seen ≡ true
    → e.on_open (opens database read ∷ w.wire.trace) ≡ ok tt
    → e.on_query
        (queries (opened_at database w.wire.trace) text ∷ opens database read ∷ w.wire.trace)
      ≡ err d
    → to_class (driver d) ≡ parse_error
    → (a : CallToolResult) × (v : World) × (do_read_once e sid database text w ≡ done a v)
      × Misled sid database a v
unfolding do_read_once
do_read_once-Misled e sid database text w d l n g o q c =
    let (a, v, run, r) = live_window e sid (read_once_window e database text) w l in
    let (m, f) =
      read_once_window-misled e database text (found_state e sid w) (found_wire w) d n g o q c in
    let told = ap (envelope e (snapshot sid _)) m in
    let (t, p) = parse_error-misled e (snapshot sid _) d database c in
    (
      a,
      v,
      run,
      record {
        flagged = ap flag (r.answer ∙ told) ∙ t;
        said = ap (λ b. any_said (lines b.content.next_moves) open_phrases) (r.answer ∙ told) ∙ p;
        closed = ap (λ s. s.tx) r.own ∙ f;
      },
    )
