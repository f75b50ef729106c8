-- ===== src/Tools/Databases/Gates.antt =====
-- What the database tools refuse.
use typedb_mcp.Prelude.{
  ◌<◌, ◌≡◌, inl, inr, refl, sym, eq_refl, ap, ◌∙◌, String, false, none, [], arith, length, bytes,
  has, Bool-cases,
}
use typedb_mcp.Names.{valid_name, validate_database_name}
use typedb_mcp.Names.Rules.{valid_name_iff}
use typedb_mcp.Errors.{unclassified}
use typedb_mcp.Coordinator.{try_reserve}
use typedb_mcp.Wire.{Env}
use typedb_mcp.Session.{snapshot}
use typedb_mcp.Session.Store.{World, done, ◌>>=◌, put}
use typedb_mcp.Session.Store.Runs.{locked_lem}
use typedb_mcp.Session.Store.Resolve.{IsLive}
use typedb_mcp.Envelope.{state_error, conclude, envelope, on_upstream_unavailable}
use typedb_mcp.Tools.Discipline.Databases.{looked, put_same}
use typedb_mcp.Tools.Discipline.Delete.{conclude_lem}
use typedb_mcp.Tools.Resolving.{entered, resolving_live}
use typedb_mcp.Tools.Databases.{has_tx, reserve, create_named, do_create_database}

not_valid :
    (database : String)
    → validate_database_name database ≡ none
    → 128 < length (bytes database)
    → valid_name database ≡ false
not_valid database h n = elim (Bool-cases (valid_name database)) [
  | inl y ↦ absurd (omega (arith, ((valid_name_iff database).0 y).1, n))
  | inr z ↦ z
]

reserve_refuses :
    (database : String) (w : World)
    → valid_name database ≡ false
    → reserve database w ≡ done false w
unfolding reserve try_reserve
reserve_refuses database w h = rw h refl

create_named_refuses :
    (e : Env) (sid database : String) (w : World)
    → w.held ≡ []
    → (has_tx (w.arcs sid) w.wire).0 ≡ false
    → valid_name database ≡ false
    → create_named e sid database none w
      ≡ conclude e sid (state_error unclassified on_upstream_unavailable) (looked sid w)
unfolding ◌>>=◌
create_named_refuses e sid database w f h n =
    rw (locked_lem sid has_tx w (rw f (unfold has in refl)))
      (rw h (rw (reserve_refuses database (looked sid w) n) refl))

entered_shut :
    (e : Env) (sid : String) (w : World)
    → (w.arcs sid).tx ≡ none
    → (has_tx ((entered e sid w).arcs sid) (entered e sid w).wire).0 ≡ false
unfolding put
entered_shut e sid w h = rw eq_refl (rw h refl)

-- A name of more than 128 bytes that `create_database` finds valid is never created: in a live session
-- without a transaction the handler answers that the database is busy, whichever names are reserved, and
-- makes no call.
pub do_create_database_long :
    (e : Env) (sid database : String) (w : World)
    → IsLive e sid w
    → (w.arcs sid).tx ≡ none
    → validate_database_name database ≡ none
    → 128 < length (bytes database)
    → (v : World) × (do_create_database e sid database w
        ≡ done
            (envelope e
              (snapshot sid (v.arcs sid))
              (state_error unclassified on_upstream_unavailable))
            v)
      × (v.wire.trace ≡ w.wire.trace)
unfolding do_create_database
do_create_database_long e sid database w l h valid long =
    let u : World = entered e sid w in
    (
      looked sid (looked sid u),
      rw valid (
          resolving_live e sid _ w l
          ∙ create_named_refuses e sid database u l.free (entered_shut e sid w h)
              (not_valid database valid long)
          ∙ conclude_lem e sid (state_error unclassified on_upstream_unavailable) (looked sid u)
              (rw l.free (unfold has in refl))
          ∙ ap
              (λ s.
                done
                  (envelope e (snapshot sid s) (state_error unclassified on_upstream_unavailable))
                  (looked sid (looked sid u)))
              (sym (put_same sid (looked sid u).arcs sid))),
      refl,
    )
