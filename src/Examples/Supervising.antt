-- ===== src/Examples/Supervising.antt =====
-- The supervisor with an export in memory.
use typedb_mcp.Prelude.{◌≡◌, refl, none, [], ◌∷◌, has, add}
use typedb_mcp.Names.{valid_name}
use typedb_mcp.Coordinator.{new, try_reserve}
use typedb_mcp.Migration.Paths.{parent, file_name, join, split_last, same_path}
use typedb_mcp.Migration.Disk.{export_kind, ◌>>=◌, ◌>>◌, pure, fail, look}
use typedb_mcp.Migration.Checks.{ok_or, refuse_if, normalize_destination}
use typedb_mcp.Migration.Supervisor.{
  Ticket, Supervisor, here, next, submits, works, with_factory_and_settings, destinations, submit,
  work, alive,
}
use typedb_mcp.Migration.Supervisor.Admission.{Single, Reach-Single}
use typedb_mcp.Migration.Supervisor.Answering.{outcome, work-outcome}
use typedb_mcp.Migration.Supervisor.Shutdown.Draining.{IsHonest}
use typedb_mcp.Examples.Disk.{memory}
use typedb_mcp.Examples.Disk.Jobs.{job, empty_start}

abbrev ready : Supervisor memory
ready = with_factory_and_settings memory empty_start new none

abbrev pub loaded : Supervisor memory
loaded = (submit (job export_kind) ready).1

abbrev ticket : Ticket
ticket = record { id = 0; job = job export_kind }

Reach-Single_example : Single (work loaded)
Reach-Single_example =
    Reach-Single empty_start new none (work loaded)
      (next (next here (submits (job export_kind) refl)) (works refl))

loaded-Single : Single loaded
loaded-Single =
    Reach-Single empty_start new none loaded (next here (submits (job export_kind) refl))

loaded_alive : alive loaded ≡ ticket ∷ []
unfolding with_factory_and_settings submit new try_reserve valid_name has add destinations
    normalize_destination ◌>>=◌ ◌>>◌ pure fail look ok_or refuse_if parent file_name join split_last
    same_path
loaded_alive = refl

pub loaded-IsHonest : IsHonest loaded
unfolding with_factory_and_settings submit new try_reserve valid_name has add destinations
    normalize_destination ◌>>=◌ ◌>>◌ pure fail look ok_or refuse_if parent file_name join split_last
    same_path
loaded-IsHonest = refl

work-outcome_example :
    (work (work (work loaded))).answers ≡ (0, outcome loaded ticket) ∷ loaded.answers
work-outcome_example = work-outcome loaded ticket loaded-Single loaded_alive
