-- ===== src/Tools/Discipline/Databases.antt =====
-- The database tools keep the invariant, on every branch; `delete_database` also while it answers with
-- another session's lock held.
use typedb_mcp.Prelude.{
  ◌≡◌, inl, inr, String, Bool, true, false, Option, none, some, arith, List, [], ◌∷◌, Bool-cases,
  ◌==◌, ap, sym, ◌∙◌, has, eq_refl, eq_iff, All,
}
use typedb_mcp.Names.{NameError}
use typedb_mcp.Coordinator.{Reserved, reserved, refused}
use typedb_mcp.Wire.{Env, Wire, Reply, ok, err}
use typedb_mcp.Session.{SessionState, OpenTx}
use typedb_mcp.Session.Store.{
  put, lock, inside, drop, ◌>>=◌, ◌>>◌, pure, World, Outcome, done, blocked, Resolved, found,
  unknown, expired,
}
use typedb_mcp.Session.Store.Runs.{Runs, Inv, Post, IsLawful}
use typedb_mcp.Tools.Databases.{
  do_start_session, started_answer, schema_answer, create_named, do_list_databases, do_get_schema,
  granted_in, reserve, has_tx_on, any_on, drop_reservation, do_create_database, unsee_all,
  forget_schema, delete_reserved,
}
use typedb_mcp.Tools.Discipline.Handlers.{
  Runs-list, Runs-schema, Runs-create, Runs-delete, handler_rules,
}

granted_in-Inv : {b : Bool} (w : World) (r : Reserved) → Inv b w → Post (Inv b) (granted_in w r)
granted_in-Inv w (reserved name c) h = record {
  free = h.free;
  store = h.store;
  faithful = h.faithful;
  lawful = h.lawful;
}
granted_in-Inv w (refused x) h = h

Runs-reserve : {b : Bool} (database : String) → Runs b b (reserve database)
unfolding reserve
Runs-reserve database = record { at = λ w h. granted_in-Inv w _ h }

Runs-drop_reservation : {b : Bool} (database : String) → Runs b b (drop_reservation database)
unfolding drop_reservation
Runs-drop_reservation database = record {
  at = λ w h. record { free = h.free; store = h.store; faithful = h.faithful; lawful = h.lawful };
}

ruleset database_rules = (
  handler_rules, Runs-list, Runs-schema, Runs-create, Runs-delete, Runs-reserve,
  Runs-drop_reservation,
)

pub Runs-do_list_databases : (e : Env) (sid : String) → Runs false false (do_list_databases e sid)
unfolding do_list_databases
Runs-do_list_databases e sid = search database_rules depth 9

Runs-schema_answer :
    (e : Env) (sid database : String) (r : Reply String)
    → Runs false false (schema_answer e sid database r)
Runs-schema_answer e sid database (ok text) = search database_rules depth 9
Runs-schema_answer e sid database (err d) = search database_rules depth 9

pub Runs-do_get_schema :
    (e : Env) (sid database : String) → Runs false false (do_get_schema e sid database)
unfolding do_get_schema
Runs-do_get_schema e sid database = search (database_rules, Runs-schema_answer) depth 9

Runs-started_answer :
    (e : Env) (sid : String) (r : Resolved) → Runs false false (started_answer e sid r)
Runs-started_answer e sid found = search database_rules depth 9
Runs-started_answer e sid unknown = search database_rules depth 9
Runs-started_answer e sid expired = search database_rules depth 9

pub Runs-do_start_session : (e : Env) → Runs false false (do_start_session e)
unfolding do_start_session
Runs-do_start_session e = search (database_rules, Runs-started_answer) depth 9

Runs-create_named :
    (e : Env) (sid database : String) (r : Option NameError)
    → Runs false false (create_named e sid database r)
Runs-create_named e sid database (some x) = search database_rules depth 9
Runs-create_named e sid database none = search database_rules depth 15

pub Runs-do_create_database :
    (e : Env) (sid database : String) → Runs false false (do_create_database e sid database)
unfolding do_create_database
Runs-do_create_database e sid database = search (database_rules, Runs-create_named) depth 9

Runs-unsee_all : (database : String) (ids : List String) → Runs false false (unsee_all database ids)
unfolding unsee_all
Runs-unsee_all database [] = search database_rules
Runs-unsee_all database (id ∷ ids) = let rest = Runs-unsee_all database ids in search database_rules

Runs-forget_schema :
    (database : String) (r : Reply (Unit {0})) → Runs false false (forget_schema database r)
Runs-forget_schema database (ok _) = search (database_rules, Runs-unsee_all)
Runs-forget_schema database (err d) = search database_rules

pub Runs-delete_reserved :
    (e : Env) (sid database : String) → Runs false false (delete_reserved e sid database)
unfolding delete_reserved
Runs-delete_reserved e sid database = search (database_rules, Runs-forget_schema) depth 15

-- Nothing of a session changes when its own state is put back.
pub put_same :
    (id : String) (arcs : String → SessionState) (j : String) → put id (arcs id) arcs j ≡ arcs j
unfolding put
put_same id arcs j = elim (Bool-cases (id == j)) [
  | inl e ↦ rw e (ap arcs ((eq_iff id j).0 e))
  | inr e ↦ rw e
]

-- The loop over the sessions: it finds none, or stops at one with the lock of that one held.
abbrev pub Found : String → World → Outcome (Option String) → Type 0
Found database w (done none v) = Inv false v
Found database w (done (some id) v) =
    (v.held ≡ id ∷ [])
    × (v.store_held ≡ false)
    × ((j : String) → (v.arcs j) ≡ w.arcs j)
    × All IsLawful v.wire.trace
    × ((tx : OpenTx) × ((w.arcs id).tx ≡ some tx))
Found database w (blocked v) = ⊥

-- The session's own state is put back by a window that only looks.
abbrev pub looked : String → World → World
looked id w = record w { arcs = put id (w.arcs id) w.arcs }

pub looked-Inv : (id : String) (w : World) → Inv false w → Inv false (looked id w)
looked-Inv id w h = record {
  free = h.free;
  store = h.store;
  faithful = λ j. rw (put_same id w.arcs j) (h.faithful j);
  lawful = h.lawful;
}

Found-looked :
    (database id : String) (w : World) (r : Outcome (Option String))
    → Found database (looked id w) r
    → Found database w r
Found-looked database id w (done none v) f = f
Found-looked database id w (done (some j) v) f = (
  f.0,
  f.1,
  λ k. f.2 k ∙ put_same id w.arcs k,
  f.3,
  (f.4.0, sym (ap (λ (s : SessionState). s.tx) (put_same id w.arcs j)) ∙ f.4.1),
)
Found-looked database id w (blocked v) f = f

has_tx_on-some :
    (database : String) (s : SessionState) (x : Wire)
    → (has_tx_on database s x).0 ≡ true
    → (tx : OpenTx) × (s.tx ≡ some tx)
has_tx_on-some database s x h = ground arith

pub any_on_stops :
    (database id : String) (ids : List String) (w : World)
    → w.held ≡ []
    → (has_tx_on database (w.arcs id) w.wire).0 ≡ true
    → any_on database (id ∷ ids) w ≡ done (some id) (record (looked id w) { held = id ∷ w.held })
unfolding any_on lock inside ◌>>=◌ ◌>>◌ pure has
any_on_stops database id ids w f b = simp (f, b)

pub any_on_goes_on :
    (database id : String) (ids : List String) (w : World)
    → w.held ≡ []
    → (has_tx_on database (w.arcs id) w.wire).0 ≡ false
    → any_on database (id ∷ ids) w ≡ any_on database ids (looked id w)
unfolding any_on lock inside drop ◌>>=◌ ◌>>◌ pure has
any_on_goes_on database id ids w f b = simp (f, b, eq_refl)

pub any_on-Found :
    (database : String) (ids : List String) (w : World)
    → Inv false w
    → Found database w (any_on database ids w)
any_on-Found database [] w h = unfold any_on pure in h
any_on-Found database (id ∷ ids) w h = elim (Bool-cases (has_tx_on database (w.arcs id) w.wire).0) [
  | inl b ↦ rw (any_on_stops database id ids w h.free b) (
    ap (λ l. id ∷ l) h.free,
    h.store,
    put_same id w.arcs,
    h.lawful,
    has_tx_on-some database (w.arcs id) w.wire b,
  )
  | inr b ↦
      rw (any_on_goes_on database id ids w h.free b)
        (Found-looked database id w _ (any_on-Found database ids (looked id w) (looked-Inv id w h)))
]
