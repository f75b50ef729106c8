-- ===== src/Tools/Transactions/Lifecycle.antt =====
-- Which requests `open_*` lets through to the server.
use typedb_mcp.Prelude.{
  ◌≡◌, ◌≢◌, ◌⊎◌, inl, inr, sym, ap, ◌∙◌, String, Bool, true, false, none, ◌∷◌, ◌==◌, arith, has,
}
use typedb_mcp.Kinds.{TxKind}
use typedb_mcp.Coordinator.{is_reserved}
use typedb_mcp.Wire.{Env, Wire, opens}
use typedb_mcp.Session.{SessionState}
use typedb_mcp.Session.Store.{World, done, ◌>>=◌, locked}
use typedb_mcp.Session.Store.Resolve.{IsLive}
use typedb_mcp.Envelope.{CallToolResult, conclude}
use typedb_mcp.Tools.{resolving}
use typedb_mcp.Tools.Resolving.{resolving_live}
use typedb_mcp.Tools.Windowed.{live_window, found_state, found_wire}
use typedb_mcp.Tools.Transactions.{open_window, reading_reserved, do_open_any}

-- What the window does, given whether the database is reserved.
open_window_gate :
    (e : Env) (reserved : Bool) (database : String) (kind : TxKind) (s : SessionState) (x : Wire)
    → let r = open_window e reserved database kind s x in
      ((reserved ≡ false)
        × (s.tx ≡ none)
        × (has database s.schema_seen ≡ true)
        × (r.2.trace ≡ opens database kind ∷ x.trace))
      ⊎ (((reserved ≡ true) ⊎ (s.tx ≢ none) ⊎ (has database s.schema_seen ≡ false))
          × (r.1 ≡ s)
          × (r.2 ≡ x))
unfolding open_window
open_window_gate e reserved database kind s x = ground arith

-- The names that destructive operations have reserved, as the tool finds them.
abbrev pub in_use : World → String → Bool
in_use w database = has database w.coordinator.names

-- Either nothing stands against the opening and the server is asked for it, or something does and neither
-- the session nor the server notices.
abbrev pub Gated : String → String → TxKind → World → World → Type 0
Gated sid database kind w v =
    ((in_use w database ≡ false)
      × ((w.arcs sid).tx ≡ none)
      × (has database (w.arcs sid).schema_seen ≡ true)
      × (v.wire.trace ≡ opens database kind ∷ w.wire.trace))
    ⊎ (((in_use w database ≡ true)
          ⊎ ((w.arcs sid).tx ≢ none)
          ⊎ (has database (w.arcs sid).schema_seen ≡ false))
        × ((v.arcs sid).tx ≡ (w.arcs sid).tx)
        × ((v.arcs sid).schema_seen ≡ (w.arcs sid).schema_seen)
        × (v.wire.trace ≡ w.wire.trace))

-- The reservations are those of the world in which the request comes.
read_once_in :
    (e : Env) (sid database : String) (kind : TxKind) (w : World)
    → IsLive e sid w
    → do_open_any e sid database kind w
      ≡ resolving e sid
          (locked sid (open_window e (in_use w database) database kind) >>= conclude e sid)
          w
unfolding do_open_any reading_reserved is_reserved ◌>>=◌
read_once_in e sid database kind w l = resolving_live e sid _ w l ∙ sym (resolving_live e sid _ w l)

-- In a live session `open_*` answers and leaves all other sessions as they are. It asks the server for a
-- transaction, once, exactly when no destructive operation has reserved the database, the session has no
-- transaction and has read the database's schema; otherwise the session keeps its transaction and gates,
-- and there is no call.
pub do_open_any-Gated :
    (e : Env) (sid database : String) (kind : TxKind) (w : World)
    → IsLive e sid w
    → (a : CallToolResult) × (v : World) × (do_open_any e sid database kind w ≡ done a v)
      × ((j : String) → (sid == j) ≡ false → v.arcs j ≡ w.arcs j)
      × Gated sid database kind w v
do_open_any-Gated e sid database kind w l =
    let (a, v, run, r) = live_window e sid (open_window e (in_use w database) database kind) w l in
    (
      a,
      v,
      read_once_in e sid database kind w l ∙ run,
      r.others,
      elim (open_window_gate e (in_use w database) database kind (found_state e sid w)
          (found_wire w)) [
            | inl (free, idle, seen, sent) ↦
                inl (free, idle, seen, ap (λ x. x.trace) r.wire_after ∙ sent)
            | inr (why, own, unsent) ↦ inr (
              why,
              ap (λ s. s.tx) (r.own ∙ own),
              ap (λ s. s.schema_seen) (r.own ∙ own),
              ap (λ x. x.trace) (r.wire_after ∙ unsent),
            )
          ],
    )
