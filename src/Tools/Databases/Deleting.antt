-- ===== src/Tools/Databases/Deleting.antt =====
-- When `delete_database` reaches the server.
use mathlib.Core.Path.{subst}
use typedb_mcp.Prelude.{
  ◌≡◌, inl, inr, refl, sym, ap, ◌∙◌, String, true, false, Option, none, some, List, [], ◌∷◌, ◌==◌,
  arith, has, eq_iff, eq_refl, Bool-cases,
}
use typedb_mcp.Names.{NameError, validate_database_name}
use typedb_mcp.Errors.{tx_already_open}
use typedb_mcp.Wire.{Env, Wire, Call}
use typedb_mcp.Session.{SessionState}
use typedb_mcp.Session.Store.{
  World, Outcome, done, blocked, ◌>>=◌, ◌>>◌, pure, continue, put, drop, unlock, all_sessions,
}
use typedb_mcp.Session.Store.Runs.{locked_lem}
use typedb_mcp.Session.Store.Resolve.{IsLive}
use typedb_mcp.Session.Store.Invalidate.{put_field}
use typedb_mcp.Envelope.{CallToolResult, on_error}
use typedb_mcp.Tools.Discipline.Databases.{looked, put_same}
use typedb_mcp.Tools.Discipline.Delete.{all_sessions_lem}
use typedb_mcp.Tools.Resolving.{entered, resolving_live}
use typedb_mcp.Tools.Windowed.{found_state}
use typedb_mcp.Tools.Databases.Scan.{is_on, Scanned, any_on-Scanned}
use typedb_mcp.Tools.Databases.Refusals.{
  GuardedRun, Guarded, refused_conclude, delete_reserved-Guarded,
}
use typedb_mcp.Tools.Databases.{
  has_tx, any_on, delete_reserved, delete_unless, delete_checked, delete_named, do_delete_database,
}

apart :
    (database : String) (arcs : String → SessionState) (sid other : String)
    → (arcs sid).tx ≡ none
    → is_on database (arcs other) ≡ true
    → (other == sid) ≡ false
apart database arcs sid other h b = elim (Bool-cases (other == sid)) [
  | inl q ↦ ground (arith, ap (λ i. is_on database (arcs i)) ((eq_iff other sid).0 q), h, b)
  | inr q ↦ q
]

-- The refusal is built under the lock of the other session, which is dropped after it.
refuse-Guarded :
    (e : Env) (sid database other : String) (P : Type 0) (v : World)
    → v.held ≡ other ∷ []
    → (other == sid) ≡ false
    → Guarded database P v.wire.trace (delete_unless e sid database (some other)) v
unfolding ◌>>=◌ ◌>>◌ pure drop
refuse-Guarded e sid database other P v f ne =
    let (a, y, run, out) =
      refused_conclude e sid database P tx_already_open (on_error tx_already_open none) v
        (rw f (unfold has in rw ne)) in
    (a, record y { held = unlock other y.held }, rw run refl, out)

abbrev pub NoneOn : String → World → Type 0
NoneOn database w = (j : String) → has j w.ids ≡ true → is_on database (w.arcs j) ≡ false

decided :
    (e : Env) (sid database : String) (w : World) (r : Outcome (Option String))
    → (w.arcs sid).tx ≡ none
    → w.store_held ≡ false
    → Scanned database w.ids w r
    → Guarded database
        (NoneOn database w)
        w.wire.trace
        (λ u. continue r (delete_unless e sid database))
        w
decided e sid database w (done none v) h s (clear, held, store, wire) =
    let g = delete_reserved-Guarded e sid database (NoneOn database w) v clear held (store ∙ s) in
    subst (λ l. Guarded database (NoneOn database w) l (delete_reserved e sid database) v)
      (ap (λ x. x.trace) wire) g
decided e sid database w (done (some other) v) h s (held, on, wire) =
    let g =
      refuse-Guarded e sid database other (NoneOn database w) v held
        (apart database w.arcs sid other h on) in
    subst
      (λ l. Guarded database (NoneOn database w) l (delete_unless e sid database (some other)) v)
      (ap (λ x. x.trace) wire) g
decided e sid database w (blocked v) h s f = absurd f

GuardedRun-map :
    {database : String} {P Q : Type 0} {before : List Call} (r : Outcome CallToolResult)
    → (P → Q)
    → GuardedRun database P before r
    → GuardedRun database Q before r
GuardedRun-map r f (a, v, run, inl out) = (a, v, run, inl out)
GuardedRun-map r f (a, v, run, inr (calls, p)) = (a, v, run, inr (calls, f p))

past_own_check :
    (e : Env) (sid database : String) (w : World)
    → w.held ≡ []
    → w.store_held ≡ false
    → (w.arcs sid).tx ≡ none
    → Guarded database
        (NoneOn database w)
        w.wire.trace
        (all_sessions >>= λ ids. any_on database ids >>= delete_unless e sid database)
        w
unfolding ◌>>=◌
past_own_check e sid database w f s h = rw (all_sessions_lem w s) (
    decided e sid database (record w { store_held = false }) _ h refl
      (any_on-Scanned database w.ids (record w { store_held = false }) f))

not_busy : (s : SessionState) (x : Wire) → (has_tx s x).0 ≡ false → s.tx ≡ none
not_busy s x h = ground arith

delete_checked-Guarded :
    (e : Env) (sid database : String) (w : World)
    → w.held ≡ []
    → w.store_held ≡ false
    → Guarded database (NoneOn database w) w.wire.trace (delete_checked e sid database) w
unfolding delete_checked ◌>>=◌
delete_checked-Guarded e sid database w f s =
    rw (locked_lem sid has_tx w (rw f (unfold has in refl)))
      (elim (Bool-cases (has_tx (w.arcs sid) w.wire).0) [
        | inl b ↦ rw b (
            refused_conclude e sid database (NoneOn database w) _ _ (looked sid w)
              (rw f (unfold has in refl)))
        | inr b ↦ rw b (
            GuardedRun-map _
              (λ clear j h. ap (is_on database) (sym (put_same sid w.arcs j)) ∙ clear j h)
              (past_own_check e sid database (looked sid w) f s
                (ap (λ t. t.tx) (put_same sid w.arcs sid) ∙ not_busy (w.arcs sid) w.wire b)))
      ])

delete_named-Guarded :
    (e : Env) (sid database confirm : String) (r : Option NameError) (w : World)
    → w.held ≡ []
    → w.store_held ≡ false
    → Guarded database
        ((confirm ≡ database) × (r ≡ none) × NoneOn database w)
        w.wire.trace
        (delete_named e sid database confirm r)
        w
delete_named-Guarded e sid database confirm (some x) w f s =
    refused_conclude e sid database _ _ _ w (rw f (unfold has in refl))
delete_named-Guarded e sid database confirm none w f s = elim (Bool-cases (confirm == database)) [
  | inr n ↦ rw n (refused_conclude e sid database _ _ _ w (rw f (unfold has in refl)))
  | inl q ↦ rw q (
      GuardedRun-map _ (λ clear. ((eq_iff confirm database).0 q, refl, clear))
        (delete_checked-Guarded e sid database w f s))
]

is_on-entered :
    (e : Env) (sid database : String) (w : World) (j : String)
    → is_on database ((entered e sid w).arcs j) ≡ is_on database (w.arcs j)
is_on-entered e sid database w j =
    put_field (is_on database) sid (found_state e sid w) (put sid (w.arcs sid) w.arcs) j
      (unfold put in rw eq_refl)
    ∙ put_field (is_on database) sid _ w.arcs j refl

-- In a live session `delete_database` answers. Either it answers with an error and has made no call, or
-- its one call deletes that database: then the confirmation was the database's exact name, the name
-- passed the check, and no session of the store had a transaction open on the database.
pub do_delete_database-Guarded :
    (e : Env) (sid database confirm : String) (w : World)
    → IsLive e sid w
    → Guarded database
        ((confirm ≡ database) × (validate_database_name database ≡ none) × NoneOn database w)
        w.wire.trace
        (do_delete_database e sid database confirm)
        w
unfolding do_delete_database
do_delete_database-Guarded e sid database confirm w l =
    rw
      (resolving_live e sid (delete_named e sid database confirm (validate_database_name database))
        w l)
      (GuardedRun-map _ (λ p. (p.0, p.1, λ j h. sym (is_on-entered e sid database w j) ∙ p.2 j h))
        (delete_named-Guarded e sid database confirm (validate_database_name database)
          (entered e sid w) l.free refl))
