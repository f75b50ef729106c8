-- ===== src/Consumer/Sending.antt =====
-- The run of `count_entities` in a live session.
use typedb_mcp.Prelude.{
  ◌≡◌, refl, ap, ◌∙◌, ◌⊎◌, inl, inr, String, true, false, has, codes, arith, Bool-cases, ◌==◌,
  eq_refl,
}
use typedb_mcp.Wire.{Env, Wire, query, open_transaction, close}
use typedb_mcp.Answers.{QueryAnswerJson}
use typedb_mcp.Session.{SessionState, snapshot}
use typedb_mcp.Session.Store.{World, done, put, ◌>>=◌}
use typedb_mcp.Session.Store.Resolve.{IsLive}
use typedb_mcp.Envelope.{CallToolResult, envelope}
use typedb_mcp.Kernel.{read_tx_window, with_read_tx}
use typedb_mcp.Tools.Discipline.Databases.{looked, put_same}
use typedb_mcp.Tools.Discipline.Delete.{conclude_lem}
use typedb_mcp.Tools.Resolving.{entered, resolving_live}
use typedb_mcp.Tools.Windowed.{live_window, found_state, found_wire}
use typedb_mcp.Tools.Queries.Retriable.{IsReadOnce}
use typedb_mcp.Consumer.{is_label, not_a_label, count_query, counting, count_hints, count_entities}
use typedb_mcp.Consumer.Counting.{semicolons, count_query-semicolons}

-- The calls of a read transaction with one query, of a session that has read the schema.
abbrev pub IsGatedRead : Env → String → String → SessionState → Wire → Wire → Type 0
IsGatedRead e database text s x y =
    (y.trace ≡ x.trace)
    ⊎ ((has database s.schema_seen ≡ true) × IsReadOnce e database text x.trace y.trace)

counting-IsGatedRead :
    (e : Env) (database text : String) (render : QueryAnswerJson → String) (s : SessionState)
    (x : Wire)
    → IsGatedRead e database text s x
        (read_tx_window e database count_hints (counting e render text) s x).2
unfolding read_tx_window counting open_transaction query close
counting-IsGatedRead e database text render s x = ground arith

counting_keeps :
    (e : Env) (database text : String) (render : QueryAnswerJson → String) (s : SessionState)
    (x : Wire)
    → (read_tx_window e database count_hints (counting e render text) s x).1 ≡ s
unfolding read_tx_window
counting_keeps e database text render s x = ground arith

-- What `count_entities` leaves behind.
pub record Counted (e : Env) (sid database entity_type : String) (w : World) (a : CallToolResult)
    (v : World) : Type 0 where
  pub transaction : (v.arcs sid).tx ≡ (w.arcs sid).tx
  pub gates : (v.arcs sid).schema_seen ≡ (w.arcs sid).schema_seen
  pub others : (j : String) → (sid == j) ≡ false → v.arcs j ≡ w.arcs j
  pub calls :
      (v.wire.trace ≡ w.wire.trace)
      ⊎ ((is_label entity_type ≡ true)
          × (semicolons (codes (count_query entity_type)) ≡ 2)
          × (has database (w.arcs sid).schema_seen ≡ true)
          × IsReadOnce e database (count_query entity_type) w.wire.trace v.wire.trace)

entered_arcs :
    (e : Env) (sid : String) (w : World) (j : String)
    → (sid == j) ≡ false
    → (entered e sid w).arcs j ≡ w.arcs j
unfolding put
entered_arcs e sid w j d = simp d

entered_fields :
    (e : Env) (sid : String) (w : World)
    → (((entered e sid w).arcs sid).tx ≡ (w.arcs sid).tx)
      × (((entered e sid w).arcs sid).schema_seen ≡ (w.arcs sid).schema_seen)
unfolding put
entered_fields e sid w = (rw eq_refl, rw eq_refl)

-- In a live session `count_entities` answers and leaves the session's transaction, its schema gates and
-- all other sessions as they were. It called the server only if the entity type is a label and the
-- session has read the schema of the database: then it asked for one READ transaction and was refused,
-- or opened one, put one query to it and closed it; and that query has the two statement ends of the
-- tool's own template, so the entity type has added no statement to it.
pub count_entities-Counted :
    (e : Env) (render : QueryAnswerJson → String) (sid database entity_type : String) (w : World)
    → IsLive e sid w
    → (a : CallToolResult) × (v : World) × (count_entities e render sid database entity_type w
        ≡ done a v)
      × Counted e sid database entity_type w a v
unfolding count_entities with_read_tx ◌>>=◌
count_entities-Counted e render sid database entity_type w l =
    let text = count_query entity_type in
    let window = read_tx_window e database count_hints (counting e render text) in
    elim (Bool-cases (is_label entity_type)) [
      | inl h ↦
          let (a, v, run, r) = live_window e sid window w l in
          let kept = r.own ∙ counting_keeps e database text render _ _ in
          (
            a,
            v,
            rw h run,
            record {
              transaction = ap (λ s. s.tx) kept;
              gates = ap (λ s. s.schema_seen) kept;
              others = r.others;
              calls =
                  rw r.wire_after
                    (elim (counting-IsGatedRead e database text render (found_state e sid w)
                      (found_wire w)) [
                        | inl same ↦ inl same
                        | inr (seen, c) ↦ inr (h, count_query-semicolons entity_type h, seen, c)
                      ]);
            },
          )
      | inr h ↦
          let start : World = entered e sid w in
          (
            envelope e (snapshot sid (start.arcs sid)) not_a_label,
            looked sid start,
            rw h (
                resolving_live e sid _ w l
                ∙ conclude_lem e sid not_a_label start (rw l.free (unfold has in refl))),
            record {
              transaction =
                  ap (λ s. s.tx) (put_same sid start.arcs sid) ∙ (entered_fields e sid w).0;
              gates =
                  ap (λ s. s.schema_seen) (put_same sid start.arcs sid)
                  ∙ (entered_fields e sid w).1;
              others = λ j d. put_same sid start.arcs j ∙ entered_arcs e sid w j d;
              calls = inl refl;
            },
          )
    ]
