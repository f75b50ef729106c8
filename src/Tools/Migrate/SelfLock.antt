-- ===== src/Tools/Migrate/SelfLock.antt =====
-- A migration that is asked for while the session has a transaction.
use typedb_mcp.Prelude.{◌≡◌, refl, ◌∙◌, String, true, false, Option, some, [], ◌∷◌, has, eq_refl}
use typedb_mcp.Wire.{Env}
use typedb_mcp.Session.{OpenTx}
use typedb_mcp.Session.Store.{
  World, blocked, M, ◌>>=◌, ◌>>◌, put, lock, inside, locked, snapshot_arc,
}
use typedb_mcp.Session.Store.Resolve.{IsLive}
use typedb_mcp.Envelope.{conclude}
use typedb_mcp.Migration.Disk.{MigrationKind}
use typedb_mcp.Tools.Resolving.{entered, resolving_live}
use typedb_mcp.Tools.Migrate.{Awaited, migrate_owned, is_unconfirmed, do_migration}

migrate_owned_blocks :
    (e : Env) (kind : MigrationKind) (sid database : String) (ran : M Awaited) (w : World)
    (tx : OpenTx)
    → w.held ≡ []
    → (w.arcs sid).tx ≡ some tx
    → migrate_owned e kind sid database ran w
      ≡ blocked (record w { held = sid ∷ w.held; arcs = put sid (w.arcs sid) w.arcs })
unfolding migrate_owned lock inside conclude snapshot_arc locked has ◌>>=◌ ◌>>◌
migrate_owned_blocks e kind sid database ran w tx f h = simp (f, h, eq_refl)

pub entered_tx :
    (e : Env) (sid : String) (w : World) → ((entered e sid w).arcs sid).tx ≡ (w.arcs sid).tx
unfolding put
entered_tx e sid w = rw eq_refl

-- In a live session that has a transaction open, a migration that is allowed and confirmed never
-- answers: the handler waits for the lock of the session, which it holds itself. The lock of the
-- store is free then.
pub do_migration_blocks :
    (e : Env) (kind : MigrationKind) (sid database : String) (confirm : Option String)
    (ran : M Awaited) (w : World) (tx : OpenTx)
    → IsLive e sid w
    → (w.arcs sid).tx ≡ some tx
    → is_unconfirmed database confirm ≡ false
    → (v : World) × (do_migration e true kind sid database confirm ran w ≡ blocked v)
      × (has sid v.held ≡ true)
      × (v.store_held ≡ false)
unfolding do_migration
do_migration_blocks e kind sid database confirm ran w tx l h c =
    let u : World = entered e sid w in
    (
      record u { held = sid ∷ u.held; arcs = put sid (u.arcs sid) u.arcs },
      rw c (
          resolving_live e sid _ w l
          ∙ migrate_owned_blocks e kind sid database ran u tx l.free (entered_tx e sid w ∙ h)),
      unfold has in rw eq_refl,
      refl,
    )
