-- ===== src/Tools/Queries/Advice.antt =====
-- What the `next_moves` of the query tools say of the session's transaction.
use typedb_mcp.Prelude.{◌≡◌, String, Bool, not, ◌&&◌, Option, some, none, arith}
use typedb_mcp.Errors.{ErrorClass, retriable_in_same_tx}
use typedb_mcp.Wire.{Env, Wire, query, now}
use typedb_mcp.Session.{SessionState, SessionSnapshot}
use typedb_mcp.Session.Store.{World, done}
use typedb_mcp.Session.Store.Resolve.{IsLive}
use typedb_mcp.Envelope.{
  CallToolResult, Moves, on_error, envelope, envelope_ok, envelope_err, envelope_state_error,
}
use typedb_mcp.Envelope.NextMoves.{lines}
use typedb_mcp.Envelope.NextMoves.Phrases.{any_said, open_phrases, is_silent, any_said-on_error}
use typedb_mcp.Tools.Windowed.{live_window, found_state, found_wire}
use typedb_mcp.Tools.Queries.{keep_if_retriable, materialize, query_window, do_query}
use typedb_mcp.Tools.Queries.Retriable.{is_open}

-- The class of the answer's error, where there is one.
abbrev pub class_of : CallToolResult → Option ErrorClass
class_of a = elim a.content.error [ some p ↦ some p.class | none ↦ none ]

-- Where there is an error, the moves are those of its class, and the flag is the transaction's.
abbrev IsAdvised : Option ErrorClass → Moves → Bool → Type 0
IsAdvised (some c) moves still = (moves ≡ on_error c none) × (still ≡ retriable_in_same_tx c)
IsAdvised none moves still = Unit {0}

query_window-IsAdvised :
    (e : Env) (text : String) (s : SessionState) (x : Wire) (snap : SessionSnapshot)
    → let a = envelope e snap (query_window e text s x).0 in
      IsAdvised (class_of a) a.content.next_moves (is_open (query_window e text s x).1)
unfolding query_window keep_if_retriable materialize query now envelope envelope_ok envelope_err
    envelope_state_error retriable_in_same_tx
query_window-IsAdvised e text s x snap = ground arith

-- Whether an answer's lines say that the transaction is open, against whether it is. An answer without an
-- error is not judged.
abbrev pub IsHonest : Option ErrorClass → Moves → Bool → Type 0
IsHonest (some c) moves still = any_said (lines moves) open_phrases ≡ (still && not (is_silent c))
IsHonest none moves still = Unit {0}

IsAdvised-IsHonest :
    (c : Option ErrorClass) (moves : Moves) (still : Bool)
    → IsAdvised c moves still
    → IsHonest c moves still
unfolding lines
IsAdvised-IsHonest none moves still h = tt
IsAdvised-IsHonest (some c) moves still (m, b) = rw m (rw b (any_said-on_error c))

-- In a live session `query` answers. Where it answers with an error of any class but TX_IS_READ, the
-- error's `next_moves` have one of the catalogue's phrases `ransaction is still open` and `transaction is already
-- open` exactly if the session still has its transaction; with TX_IS_READ they have neither.
pub do_query-IsHonest :
    (e : Env) (sid text : String) (w : World)
    → IsLive e sid w
    → (a : CallToolResult) × (v : World) × (do_query e sid text w ≡ done a v)
      × IsHonest (class_of a) a.content.next_moves (is_open (v.arcs sid))
unfolding do_query
do_query-IsHonest e sid text w l =
    let (a, v, run, r) = live_window e sid (query_window e text) w l in
    (
      a,
      v,
      run,
      rw r.answer (
          rw r.own (
            IsAdvised-IsHonest _ _ _
              (query_window-IsAdvised e text (found_state e sid w) (found_wire w) _))),
    )
