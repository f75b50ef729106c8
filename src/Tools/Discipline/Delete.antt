-- ===== src/Tools/Discipline/Delete.antt =====
-- `do_delete_database` keeps the invariant, on every branch.
use typedb_mcp.Prelude.{
  ◌≡◌, refl, String, false, Option, none, some, arith, [], ◌∷◌, Bool-cases, inl, inr, ◌==◌, ap, ◌∙◌,
  has, eq_iff, eq_refl, All,
}
use typedb_mcp.Names.{NameError}
use typedb_mcp.Errors.{tx_already_open}
use typedb_mcp.Wire.{Env, Wire}
use typedb_mcp.Session.{SessionState, OpenTx, snapshot}
use typedb_mcp.Session.Store.{
  World, Outcome, done, blocked, continue, ◌>>=◌, ◌>>◌, pure, drop, snapshot_arc, snapshot_window,
  lock_store, drop_store, keys, all_sessions,
}
use typedb_mcp.Session.Store.Runs.{Runs, Inv, Post, IsFaithful, IsLawful, locked_lem}
use typedb_mcp.Envelope.{Verdict, state_error, on_error, conclude, envelope}
use typedb_mcp.Tools.Databases.{
  has_tx, any_on, delete_unless, delete_checked, delete_named, do_delete_database,
}
use typedb_mcp.Tools.Discipline.Handlers.{Runs-conclude, Runs-resolving, handler_rules}
use typedb_mcp.Tools.Discipline.Databases.{
  Found, put_same, looked, looked-Inv, any_on-Found, Runs-delete_reserved,
}

-- An answer is built as soon as the session's own lock is free, whoever else's is held.
pub conclude_lem :
    (e : Env) (id : String) (v : Verdict) (w : World)
    → has id w.held ≡ false
    → conclude e id v w ≡ done (envelope e (snapshot id (w.arcs id)) v) (looked id w)
unfolding conclude snapshot_arc ◌>>=◌ pure
conclude_lem e id v w f = rw (locked_lem id (snapshot_window id) w f)

pub all_sessions_lem :
    (w : World)
    → w.store_held ≡ false
    → all_sessions w ≡ done w.ids (record w { store_held = false })
unfolding all_sessions lock_store keys drop_store ◌>>=◌ ◌>>◌ pure
all_sessions_lem w f = rw f

-- The refusal that is built under another session's lock.
refuse :
    (e : Env) (sid database other : String) (v : World)
    → v.held ≡ other ∷ []
    → (other == sid) ≡ false
    → v.store_held ≡ false
    → ((j : String) → IsFaithful (v.arcs j).tx)
    → All IsLawful v.wire.trace
    → Post (Inv false) (delete_unless e sid database (some other) v)
unfolding ◌>>=◌ ◌>>◌ pure drop
refuse e sid database other v f ne st fa la =
    let c =
      conclude_lem e sid (state_error tx_already_open (on_error tx_already_open none)) v
        (rw f (unfold has in rw ne)) in
    rw c (record {
      free = rw f (rw eq_refl);
      store = st;
      faithful = λ j. rw (put_same sid v.arcs j) (fa j);
      lawful = la;
    })

apart :
    (arcs : String → SessionState) (sid other : String) (tx : OpenTx)
    → (arcs sid).tx ≡ none
    → (arcs other).tx ≡ some tx
    → (other == sid) ≡ false
apart arcs sid other tx n s = elim (Bool-cases (other == sid)) [
  | inl e ↦ cc (n, s, ap arcs ((eq_iff other sid).0 e))
  | inr e ↦ e
]

decided :
    (e : Env) (sid database : String) (w : World) (r : Outcome (Option String))
    → Inv false w
    → (w.arcs sid).tx ≡ none
    → Found database w r
    → Post (Inv false) (continue r (delete_unless e sid database))
decided e sid database w (done none v) h n f = (Runs-delete_reserved e sid database).at v f
decided e sid database w (done (some other) v) h n f =
    refuse e sid database other v f.0 (apart w.arcs sid other f.4.0 n f.4.1) f.1
      (λ j. rw (f.2 j) (h.faithful j)) f.3
decided e sid database w (blocked v) h n f = f

no_tx : (s : SessionState) (x : Wire) → (has_tx s x).0 ≡ false → s.tx ≡ none
no_tx s x h = ground arith

past_own_check :
    (e : Env) (sid database : String) (w : World)
    → Inv false w
    → (w.arcs sid).tx ≡ none
    → Post
        (Inv false)
        ((all_sessions >>= λ ids. any_on database ids >>= delete_unless e sid database) w)
unfolding ◌>>=◌
past_own_check e sid database w h n =
    rw (all_sessions_lem w h.store)
      (decided e sid database _ _ (stored h) n (any_on-Found database w.ids _ (stored h)))
  where
    stored : Inv false w → Inv false (record w { store_held = false })
    stored h' = record { free = h'.free; store = refl; faithful = h'.faithful; lawful = h'.lawful }

Runs-delete_checked :
    (e : Env) (sid database : String) → Runs false false (delete_checked e sid database)
unfolding delete_checked ◌>>=◌
Runs-delete_checked e sid database = record {
  at = λ w h.
      rw (locked_lem sid has_tx w (rw h.free (unfold has in refl)))
        (elim (Bool-cases (has_tx (w.arcs sid) w.wire).0) [
          | inl b ↦ rw b ((Runs-conclude e sid _).at (looked sid w) (looked-Inv sid w h))
          | inr b ↦ rw b (
              past_own_check e sid database (looked sid w) (looked-Inv sid w h) (
                ap (λ (s : SessionState). s.tx) (put_same sid w.arcs sid)
                ∙ no_tx (w.arcs sid) w.wire b))
        ]);
}

Runs-delete_named :
    (e : Env) (sid database confirm : String) (r : Option NameError)
    → Runs false false (delete_named e sid database confirm r)
Runs-delete_named e sid database confirm (some x) = search handler_rules
Runs-delete_named e sid database confirm none = search (handler_rules, Runs-delete_checked)

pub Runs-do_delete_database :
    (e : Env) (sid database confirm : String)
    → Runs false false (do_delete_database e sid database confirm)
unfolding do_delete_database
Runs-do_delete_database e sid database confirm =
    Runs-resolving e sid _ (Runs-delete_named e sid database confirm _)
