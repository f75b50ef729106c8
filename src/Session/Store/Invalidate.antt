-- ===== src/Session/Store/Invalidate.antt =====
-- What `invalidate_schema_seen_except` does.
use typedb_mcp.Prelude.{
  ◌≡◌, refl, String, true, false, not, ◌&&◌, List, [], ◌∷◌, ◌==◌, arith, has, has-discard, eq_iff,
  ap, Bool-cases, inl, inr, ◌∙◌,
}
use typedb_mcp.Session.{SessionState}
use typedb_mcp.Session.Store.{
  World, done, ◌>>=◌, ◌>>◌, pure, put, locked, unsee, unsee_except, lock_store, drop_store, keys,
  all_sessions, invalidate_schema_seen_except,
}
use typedb_mcp.Session.Store.Runs.{locked_lem}

-- The sessions of the list but one have lost the database, and nothing else is lost.
pub record Unseen (database except : String) (ids : List String) (w v : World) : Type 0 where
  pub gates :
      (j k : String)
      → has k (v.arcs j).schema_seen
        ≡ (not (database == k && (has j ids && not (j == except))) && has k (w.arcs j).schema_seen)
  pub transactions : (j : String) → (v.arcs j).tx ≡ (w.arcs j).tx
  pub deadlines : (j : String) → (v.arcs j).expires_at ≡ (w.arcs j).expires_at
  pub ids_same : v.ids ≡ w.ids
  pub held_same : v.held ≡ w.held
  pub wire_same : v.wire ≡ w.wire

-- After one window.
abbrev unseen_at : String → String → World → World
unseen_at database id w = record w { arcs = put id (unsee database (w.arcs id) w.wire).1 w.arcs }

unsee_window :
    (database id : String) (w : World)
    → w.held ≡ []
    → locked id (unsee database) w ≡ done tt (unseen_at database id w)
unsee_window database id w f = locked_lem id (unsee database) w (rw f (unfold has in refl))

gates_step :
    (database except id : String) (ids : List String) (w v : World) (j k : String)
    → (id == except) ≡ false
    → has k (v.arcs j).schema_seen ≡ (
        not (database == k && (has j ids && not (j == except)))
        && has k ((unseen_at database id w).arcs j).schema_seen)
    → has k (v.arcs j).schema_seen ≡ (
        not (database == k && (has j (id ∷ ids) && not (j == except)))
        && has k (w.arcs j).schema_seen)
unfolding put has
gates_step database except id ids w v j k ne h = elim (Bool-cases (id == j)) [
  | inl same ↦ ground (arith, (eq_iff id j).0 same, has-discard database k (w.arcs id).schema_seen)
  | inr other ↦ ground (arith, other)
]

Unseen-skip :
    (database except id : String) (ids : List String) (w v : World)
    → (id == except) ≡ true
    → Unseen database except ids w v
    → Unseen database except (id ∷ ids) w v
unfolding has
Unseen-skip database except id ids w v e u = record {
  gates = λ j k. ground (arith, u.gates j k, eq_iff id j, eq_iff id except, eq_iff j except);
  transactions = u.transactions;
  deadlines = u.deadlines;
  ids_same = u.ids_same;
  held_same = u.held_same;
  wire_same = u.wire_same;
}

-- What a window leaves alone in its session is left alone in all.
pub put_field :
    {B : Type 0} (g : SessionState → B) (id : String) (s : SessionState)
    (arcs : String → SessionState) (j : String)
    → g s ≡ g (arcs id)
    → g (put id s arcs j) ≡ g (arcs j)
unfolding put
put_field g id s arcs j h = elim (Bool-cases (id == j)) [
  | inl e ↦ rw e (h ∙ ap (λ k. g (arcs k)) ((eq_iff id j).0 e))
  | inr e ↦ rw e
]

Unseen-step :
    (database except id : String) (ids : List String) (w v : World)
    → (id == except) ≡ false
    → Unseen database except ids (unseen_at database id w) v
    → Unseen database except (id ∷ ids) w v
Unseen-step database except id ids w v e u = record {
  gates = λ j k. gates_step database except id ids w v j k e (u.gates j k);
  transactions = λ j. u.transactions j ∙ put_field (λ t. t.tx) id _ w.arcs j refl;
  deadlines = λ j. u.deadlines j ∙ put_field (λ t. t.expires_at) id _ w.arcs j refl;
  ids_same = u.ids_same;
  held_same = u.held_same;
  wire_same = u.wire_same;
}

Unseen-none : (database except : String) (w : World) → Unseen database except [] w w
unfolding has
Unseen-none database except w = record {
  gates = λ j k. ground arith;
  transactions = λ j. refl;
  deadlines = λ j. refl;
  ids_same = refl;
  held_same = refl;
  wire_same = refl;
}

first_window :
    (database except id : String) (ids : List String) (w : World)
    → w.held ≡ []
    → (locked id (unsee database) >> unsee_except database except ids) w
      ≡ unsee_except database except ids (unseen_at database id w)
unfolding ◌>>◌
first_window database except id ids w f = rw (unsee_window database id w f)

pub unsee_except-Unseen :
    (database except : String) (ids : List String) (w : World)
    → w.held ≡ []
    → (v : World) × (unsee_except database except ids w ≡ done tt v)
      × Unseen database except ids w v
unfolding unsee_except
unsee_except-Unseen database except [] w f = (w, unfold pure in refl, Unseen-none database except w)
unsee_except-Unseen database except (id ∷ ids) w f = elim (Bool-cases (id == except)) [
  | inl e ↦
      let (v, run, u) = unsee_except-Unseen database except ids w f in
      (v, rw e run, Unseen-skip database except id ids w v e u)
  | inr e ↦
      let (v, run, u) = unsee_except-Unseen database except ids (unseen_at database id w) f in
      (
        v,
        rw e (first_window database except id ids w f ∙ run),
        Unseen-step database except id ids w v e u,
      )
]

-- With no lock held, `invalidate_schema_seen_except` ends, and every session of the store but the
-- excepted one has lost the database from its schema gates. The excepted session, all other gates,
-- every transaction and every deadline are as they were, and no call went to the server.
pub invalidate-Unseen :
    (database except : String) (w : World)
    → w.held ≡ []
    → w.store_held ≡ false
    → (v : World) × (invalidate_schema_seen_except database except w ≡ done tt v)
      × Unseen database except w.ids w v
unfolding invalidate_schema_seen_except all_sessions lock_store keys drop_store ◌>>=◌ ◌>>◌ pure
invalidate-Unseen database except w f s =
    let (v, run, u) =
      unsee_except-Unseen database except w.ids (record w { store_held = false }) f in
    (
      v,
      rw s run,
      record {
        gates = u.gates;
        transactions = u.transactions;
        deadlines = u.deadlines;
        ids_same = u.ids_same;
        held_same = u.held_same;
        wire_same = u.wire_same;
      },
    )
