-- ===== src/Migration/Backend/Lookup.antt =====
-- What an import makes of a lookup that fails.
use typedb_mcp.Prelude.{◌≡◌, refl, ap, ◌∙◌, String, false}
use typedb_mcp.Migration.Paths.{PathBuf}
use typedb_mcp.Migration.Disk.{
  System, returned, raised, returns, import_failed, absent, Process, ◌>>=◌, pure, fail, look,
  attempt, ask,
}
use typedb_mcp.Migration.Checks.{refuse_if}
use typedb_mcp.Migration.Jobs.{Job, refuse_existing, import_from_stage}
use typedb_mcp.Migration.Backend.{MigrationDriver, backend_database_exists}

-- The jobs ask this backend whether a database is there.
pub record Asks (s : System) (d : MigrationDriver) : Type 0 where
  pub at : s.Server → d.World
  pub asked :
      (name : String) (x : s.Server)
      → s.database_exists name x ≡ backend_database_exists d name (at x)

module _ {s : System} {d : MigrationDriver} (q : Asks s d) (j : Job) where
  -- The lookup of the job's target fails in this state.
  abbrev pub Lost : s.World → Type 0
  Lost w = (e : String) × ((d.get j.database (q.at (s.server w))).0 ≡ raised e)

  said_absent : (w : s.World) → Lost w → s.database_exists j.database (s.server w) ≡ returned false
  unfolding backend_database_exists
  said_absent w (e, h) = q.asked j.database (s.server w) ∙ ap (λ r. returned (returns r)) h

  -- An import whose lookup of the target fails is not refused: the guard against an existing
  -- target lets it go on as if the target were absent.
  pub refuse_existing-Lost :
      (p : Process s) → Lost p.world → refuse_existing s j p ≡ (returned tt, p)
  unfolding refuse_existing look refuse_if ◌>>=◌ pure
  refuse_existing-Lost p h = rw (said_absent p.world h) refl

  -- If the import itself fails then, and the lookup still does, the error says that the target is absent, not that it is
  -- unknown.
  pub import_from_stage-Lost :
      (a b : PathBuf) (p : Process s) (e : String)
      → (s.import_database j.database a b p.world).0 ≡ raised e
      → Lost (s.import_database j.database a b p.world).1
      → (import_from_stage s j a b p).0 ≡ raised (import_failed absent e)
  unfolding import_from_stage attempt ask fail ◌>>=◌
  import_from_stage-Lost a b p e h l = rw h (rw (said_absent _ l) refl)

  -- Where the lookup of the target fails, whatever the reason, an import is not refused, as if
  -- the target were absent; and if the import itself fails and the lookup still does, the error says that the
  -- target is absent, not that it is unknown.
  pub lookup-Lost :
      (a b : PathBuf) (p : Process s) (e : String)
      → Lost p.world
      → (s.import_database j.database a b p.world).0 ≡ raised e
      → Lost (s.import_database j.database a b p.world).1
      → (refuse_existing s j p ≡ (returned tt, p))
        × ((import_from_stage s j a b p).0 ≡ raised (import_failed absent e))
  lookup-Lost a b p e before h after =
      (refuse_existing-Lost p before, import_from_stage-Lost a b p e h after)
