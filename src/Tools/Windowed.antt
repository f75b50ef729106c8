-- ===== src/Tools/Windowed.antt =====
-- A handler that works in one window of a live session: what it answers and what it leaves behind.
use typedb_mcp.Prelude.{suc, ◌+◌, ◌≡◌, refl, ap, ◌∙◌, String, false, has, ◌==◌, eq_refl, []}
use typedb_mcp.Config.{session_ttl}
use typedb_mcp.Wire.{Env, Wire}
use typedb_mcp.Session.{SessionState, snapshot}
use typedb_mcp.Session.Store.{World, done, ◌>>=◌, put, Window, locked}
use typedb_mcp.Session.Store.Runs.{locked_lem}
use typedb_mcp.Session.Store.Resolve.{IsLive}
use typedb_mcp.Envelope.{CallToolResult, Verdict, conclude, envelope}
use typedb_mcp.Tools.{resolving}
use typedb_mcp.Tools.Discipline.Databases.{looked, put_same}
use typedb_mcp.Tools.Discipline.Delete.{conclude_lem}
use typedb_mcp.Tools.Resolving.{entered, resolving_live}

-- The session and the wire as the window finds them.
abbrev pub found_state : Env → String → World → SessionState
found_state e sid w = record (w.arcs sid) {
  expires_at = e.clock w.wire.readings + session_ttl e.config;
}

abbrev pub found_wire : World → Wire
found_wire w = record w.wire { readings = suc w.wire.readings }

-- What the window yields there.
abbrev pub yielded : {A : Type 0} → Env → String → Window A → World → A × SessionState × Wire
yielded e sid body w = body (found_state e sid w) (found_wire w)

-- The answer and the world after the handler, told by what the window yields.
pub record Answered (e : Env) (sid : String) (w : World) (verdict : Verdict) (s : SessionState)
    (x : Wire) (a : CallToolResult) (v : World) : Type 0 where
  pub answer : a ≡ envelope e (snapshot sid s) verdict
  pub own : v.arcs sid ≡ s
  pub others : (j : String) → (sid == j) ≡ false → v.arcs j ≡ w.arcs j
  pub wire_after : v.wire ≡ x
  pub ids_same : v.ids ≡ w.ids
  pub free : v.held ≡ w.held

abbrev after_window : Env → String → Window Verdict → World → World
after_window e sid body w = record (entered e sid w) {
  arcs = put sid (yielded e sid body w).1 (entered e sid w).arcs;
  wire = (yielded e sid body w).2;
}

entered_own :
    (e : Env) (sid : String) (w : World) → (entered e sid w).arcs sid ≡ found_state e sid w
unfolding put
entered_own e sid w = rw eq_refl

locked-entered :
    (e : Env) (sid : String) (body : Window Verdict) (w : World)
    → w.held ≡ []
    → locked sid body (entered e sid w) ≡ done (yielded e sid body w).0 (after_window e sid body w)
locked-entered e sid body w f =
    locked_lem sid body (entered e sid w) (rw f (unfold has in refl))
    ∙ ap
        (λ s. done (body s (found_wire w)).0 (record (entered e sid w) {
          arcs = put sid (body s (found_wire w)).1 (entered e sid w).arcs;
          wire = (body s (found_wire w)).2;
        }))
        (entered_own e sid w)

after_own :
    (e : Env) (sid : String) (body : Window Verdict) (w : World)
    → (after_window e sid body w).arcs sid ≡ (yielded e sid body w).1
unfolding put
after_own e sid body w = rw eq_refl

after_others :
    (e : Env) (sid : String) (body : Window Verdict) (w : World) (j : String)
    → (sid == j) ≡ false
    → (after_window e sid body w).arcs j ≡ w.arcs j
unfolding put
after_others e sid body w j d = simp d

pub live_window :
    (e : Env) (sid : String) (body : Window Verdict) (w : World)
    → IsLive e sid w
    → (a : CallToolResult) × (v : World) × (resolving e sid (locked sid body >>= conclude e sid) w
        ≡ done a v)
      × Answered e sid w
          (yielded e sid body w).0
          (yielded e sid body w).1
          (yielded e sid body w).2
          a
          v
unfolding ◌>>=◌
live_window e sid body w l =
    let u : World = after_window e sid body w in
    (
      envelope e (snapshot sid (u.arcs sid)) (yielded e sid body w).0,
      looked sid u,
      resolving_live e sid _ w l
          ∙ rw (locked-entered e sid body w l.free)
              (conclude_lem e sid (yielded e sid body w).0 u (rw l.free (unfold has in refl))),
      record {
        answer =
            ap (λ s. envelope e (snapshot sid s) (yielded e sid body w).0) (after_own e sid body w);
        own = put_same sid u.arcs sid ∙ after_own e sid body w;
        others = λ j d. put_same sid u.arcs j ∙ after_others e sid body w j d;
        wire_after = refl;
        ids_same = refl;
        free = refl;
      },
    )
