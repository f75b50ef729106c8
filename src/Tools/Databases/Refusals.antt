-- ===== src/Tools/Databases/Refusals.antt =====
-- The two ends of `delete_database`: a refusal, and the deletion under a reservation.
use typedb_mcp.Prelude.{◌≡◌, ◌⊎◌, inl, inr, refl, ap, String, true, false, List, [], ◌∷◌, has}
use typedb_mcp.Coordinator.{
  Reserved, reserved, refused, try_reserve, release, ReservationError, OperationCoordinator,
}
use typedb_mcp.Errors.{ErrorClass}
use typedb_mcp.Wire.{Env, Call, deletes_database, Reply, ok, err, delete_database}
use typedb_mcp.Session.{snapshot}
use typedb_mcp.Session.Store.{
  World, Outcome, done, M, ◌>>=◌, ◌>>◌, pure, calling, put, unsee, all_sessions, lock_store, keys,
  drop_store,
}
use typedb_mcp.Session.Store.Runs.{locked_lem}
use typedb_mcp.Envelope.{
  CallToolResult, Moves, state_error, conclude, envelope, envelope_state_error,
}
use typedb_mcp.Tools.Discipline.Databases.{looked}
use typedb_mcp.Tools.Discipline.Delete.{conclude_lem}
use typedb_mcp.Tools.Databases.{
  unsee_all, reserve, drop_reservation, forget_schema, deleted_verdict, delete_reserved,
}

-- A run that refuses without a call, or makes the one call under the condition `P`.
abbrev pub GuardedRun : String → Type 0 → List Call → Outcome CallToolResult → Type 0
GuardedRun database P before r =
    (a : CallToolResult) × (v : World) × (r ≡ done a v)
    × (((a.is_error ≡ true) × (v.wire.trace ≡ before))
        ⊎ ((v.wire.trace ≡ deletes_database database ∷ before) × P))

abbrev pub Guarded : String → Type 0 → List Call → M CallToolResult → World → Type 0
Guarded database P before m u = GuardedRun database P before (m u)

pub refused_conclude :
    (e : Env) (sid database : String) (P : Type 0) (class : ErrorClass) (hints : Moves) (u : World)
    → has sid u.held ≡ false
    → Guarded database P u.wire.trace (conclude e sid (state_error class hints)) u
refused_conclude e sid database P class hints u f = (
  envelope e (snapshot sid (u.arcs sid)) (state_error class hints),
  looked sid u,
  conclude_lem e sid (state_error class hints) u f,
  inl (unfold envelope envelope_state_error in refl, refl),
)

unsee_all_run :
    (database : String) (ids : List String) (u : World)
    → u.held ≡ []
    → (v : World) × (unsee_all database ids u ≡ done tt v) × (v.held ≡ []) × (v.wire ≡ u.wire)
unfolding unsee_all has ◌>>=◌ ◌>>◌ pure
unsee_all_run database [] u f = (u, refl, f, refl)
unsee_all_run database (id ∷ ids) u f =
    let w : World = record u { arcs = put id (unsee database (u.arcs id) u.wire).1 u.arcs } in
    let (v, run, held, wire) = unsee_all_run database ids w f in
    (v, rw (locked_lem id (unsee database) u (rw f refl)) run, held, wire)

forget_schema_run :
    (database : String) (r : Reply (Unit {0})) (u : World)
    → u.held ≡ []
    → u.store_held ≡ false
    → (v : World) × (forget_schema database r u ≡ done tt v) × (v.held ≡ []) × (v.wire ≡ u.wire)
unfolding all_sessions lock_store keys drop_store ◌>>=◌ ◌>>◌ pure
forget_schema_run database (err d) u f s = (u, refl, f, refl)
forget_schema_run database (ok t) u f s =
    let (v, run, held, wire) = unsee_all_run database u.ids (record u { store_held = false }) f in
    (v, rw s run, held, wire)

Reserved-cases :
    (r : Reserved)
    → ((x : ReservationError) × (r ≡ refused x))
      ⊎ ((n : String) × (c : OperationCoordinator) × (r ≡ reserved n c))
Reserved-cases (refused x) = inl (x, refl)
Reserved-cases (reserved n c) = inr (n, c, refl)

-- The call, the drop of the reservation, what follows a success, and the answer.
delete_granted :
    (e : Env) (sid database : String) (P : Type 0) (u : World)
    → P
    → u.held ≡ []
    → u.store_held ≡ false
    → Guarded database P u.wire.trace
        (calling (delete_database e database) >>= λ r.
          drop_reservation database
          >> (forget_schema database r >> conclude e sid (deleted_verdict database r)))
        u
unfolding calling delete_database drop_reservation ◌>>=◌ ◌>>◌
delete_granted e sid database P u p f s =
    let r = delete_database e database u.wire in
    let (v, run, held, wire) =
      forget_schema_run database r.0
        (record u { coordinator = release u.coordinator database; wire = r.1 }) f s in
    (
      envelope e (snapshot sid (v.arcs sid)) (deleted_verdict database r.0),
      looked sid v,
      rw run (conclude_lem e sid (deleted_verdict database r.0) v (rw held (unfold has in refl))),
      inr (ap (λ x. x.trace) wire, p),
    )

pub delete_reserved-Guarded :
    (e : Env) (sid database : String) (P : Type 0) (u : World)
    → P
    → u.held ≡ []
    → u.store_held ≡ false
    → Guarded database P u.wire.trace (delete_reserved e sid database) u
unfolding delete_reserved reserve ◌>>=◌
delete_reserved-Guarded e sid database P u p f s =
    elim (Reserved-cases (try_reserve u.coordinator database)) [
      | inl (x, q) ↦ rw q (refused_conclude e sid database P _ _ u (rw f (unfold has in refl)))
      | inr (n, c, q) ↦ rw q (delete_granted e sid database P (record u { coordinator = c }) p f s)
    ]
