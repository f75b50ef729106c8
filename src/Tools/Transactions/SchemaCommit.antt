-- ===== src/Tools/Transactions/SchemaCommit.antt =====
-- A committed schema change, seen from all sessions.
use typedb_mcp.Prelude.{
  ◌≡◌, refl, ap, ◌∙◌, String, false, not, ◌&&◌, none, some, [], ◌∷◌, ◌==◌, arith, has, eq_refl,
}
use typedb_mcp.Kinds.{schema}
use typedb_mcp.Wire.{Env, Wire, commits, ok, made}
use typedb_mcp.Session.{SessionState, OpenTx, snapshot}
use typedb_mcp.Session.Store.{World, done, ◌>>=◌, ◌>>◌, put, locked}
use typedb_mcp.Session.Store.Runs.{locked_lem}
use typedb_mcp.Session.Store.Resolve.{IsLive}
use typedb_mcp.Session.Store.Invalidate.{Unseen, put_field, invalidate-Unseen}
use typedb_mcp.Envelope.{CallToolResult, success, committed, after_commit_ok, envelope, envelope_ok}
use typedb_mcp.Tools.Discipline.Databases.{looked, put_same}
use typedb_mcp.Tools.Discipline.Delete.{conclude_lem}
use typedb_mcp.Tools.Resolving.{entered, resolving_live}
use typedb_mcp.Tools.Transactions.{commit_window, do_commit}

window_commits :
    (e : Env) (s : SessionState) (x : Wire) (tx : OpenTx)
    → s.tx ≡ some tx
    → tx.kind ≡ schema
    → e.on_commit (commits tx.transaction ∷ x.trace) ≡ ok tt
    → commit_window e s x ≡ (
      record {
        verdict = success committed (after_commit_ok tx.kind tx.database);
        changed = some tx.database;
      },
      record s { tx = none },
      made (commits tx.transaction) x,
    )
unfolding commit_window
window_commits e s x tx h k c = ground arith

-- What a committed schema change leaves behind.
pub record SchemaCommitted (sid : String) (tx : OpenTx) (w : World) (a : CallToolResult) (v : World)
    : Type 0 where
  pub succeeded : a.is_error ≡ false
  pub closed : (v.arcs sid).tx ≡ none
  pub others : (j : String) → (sid == j) ≡ false → (v.arcs j).tx ≡ (w.arcs j).tx
  pub gates :
      (j k : String)
      → has k (v.arcs j).schema_seen ≡ (
          not (tx.database == k && (has j w.ids && not (j == sid))) && has k (w.arcs j).schema_seen)
  pub calls : v.wire.trace ≡ commits tx.transaction ∷ w.wire.trace

-- The state right after the transaction is committed.
abbrev without_tx : String → OpenTx → World → World
without_tx sid tx w = record w {
  arcs = put sid (record (w.arcs sid) { tx = none }) w.arcs;
  wire = made (commits tx.transaction) w.wire;
}

locked_commits :
    (e : Env) (sid : String) (w : World) (tx : OpenTx)
    → w.held ≡ []
    → (w.arcs sid).tx ≡ some tx
    → tx.kind ≡ schema
    → e.on_commit (commits tx.transaction ∷ w.wire.trace) ≡ ok tt
    → locked sid (commit_window e) w
      ≡ done
          (record {
            verdict = success committed (after_commit_ok tx.kind tx.database);
            changed = some tx.database;
          })
          (without_tx sid tx w)
locked_commits e sid w tx f h k c =
    locked_lem sid (commit_window e) w (rw f (unfold has in refl))
    ∙ ap (λ r. done r.0 (record w { arcs = put sid r.1 w.arcs; wire = r.2 }))
        (window_commits e (w.arcs sid) w.wire tx h k c)

entered_tx :
    (e : Env) (sid : String) (w : World) → ((entered e sid w).arcs sid).tx ≡ (w.arcs sid).tx
unfolding put
entered_tx e sid w = rw eq_refl

-- A part of the state that no handler's entry and no closing changes.
seen_of :
    (e : Env) (sid : String) (w : World) (tx : OpenTx) (j : String)
    → ((without_tx sid tx (entered e sid w)).arcs j).schema_seen ≡ (w.arcs j).schema_seen
seen_of e sid w tx j =
    put_field (λ s. s.schema_seen) sid _ (entered e sid w).arcs j refl
    ∙ put_field (λ s. s.schema_seen) sid _ (put sid (w.arcs sid) w.arcs) j
        (unfold put in rw eq_refl)
    ∙ put_field (λ s. s.schema_seen) sid _ w.arcs j refl

closed_tx :
    (e : Env) (sid : String) (w : World) (tx : OpenTx)
    → ((without_tx sid tx (entered e sid w)).arcs sid).tx ≡ none
unfolding put
closed_tx e sid w tx = rw eq_refl

others_tx :
    (e : Env) (sid : String) (w : World) (tx : OpenTx) (j : String)
    → (sid == j) ≡ false
    → ((without_tx sid tx (entered e sid w)).arcs j).tx ≡ (w.arcs j).tx
unfolding put
others_tx e sid w tx j d = simp d

SchemaCommitted-looked :
    (e : Env) (sid : String) (w : World) (tx : OpenTx) (v : World) (a : CallToolResult)
    → a.is_error ≡ false
    → Unseen tx.database sid w.ids (without_tx sid tx (entered e sid w)) v
    → SchemaCommitted sid tx w a (looked sid v)
SchemaCommitted-looked e sid w tx v a s u = record {
  succeeded = s;
  closed = ap (λ t. t.tx) (put_same sid v.arcs sid) ∙ u.transactions sid ∙ closed_tx e sid w tx;
  others =
      λ j d. ap (λ t. t.tx) (put_same sid v.arcs j) ∙ u.transactions j ∙ others_tx e sid w tx j d;
  gates = λ j k.
      ap (λ t. has k t.schema_seen) (put_same sid v.arcs j)
      ∙ u.gates j k
      ∙ ap (λ l. not (tx.database == k && (has j w.ids && not (j == sid))) && has k l)
          (seen_of e sid w tx j);
  calls = ap (λ x. x.trace) u.wire_same;
}

-- A live session commits its SCHEMA transaction and the server accepts: the answer is a success,
-- the session has no transaction any more and keeps its schema gates, every other session of the
-- store loses the gate of that database and no other and keeps its transaction, and the only call
-- to the server is that commit.
pub do_commit_schema :
    (e : Env) (sid : String) (w : World) (tx : OpenTx)
    → IsLive e sid w
    → (w.arcs sid).tx ≡ some tx
    → tx.kind ≡ schema
    → e.on_commit (commits tx.transaction ∷ w.wire.trace) ≡ ok tt
    → (a : CallToolResult) × (v : World) × (do_commit e sid w ≡ done a v)
      × SchemaCommitted sid tx w a v
unfolding do_commit ◌>>=◌ ◌>>◌
do_commit_schema e sid w tx l h k c =
    let w₁ : World = entered e sid w in
    let q = locked_commits e sid w₁ tx l.free (entered_tx e sid w ∙ h) k c in
    let (v, run, u) = invalidate-Unseen tx.database sid (without_tx sid tx w₁) l.free refl in
    let done_lem =
      conclude_lem e sid (success committed (after_commit_ok tx.kind tx.database)) v
        (rw u.held_same (rw l.free (unfold has in refl))) in
    (
      envelope e (snapshot sid (v.arcs sid))
          (success committed (after_commit_ok tx.kind tx.database)),
      looked sid v,
      resolving_live e sid _ w l ∙ rw q (rw run done_lem),
      SchemaCommitted-looked e sid w tx v _ (unfold envelope envelope_ok in refl) u,
    )
