-- ===== src/Tools/Migrate/Alone/Exported.antt =====
-- What `export_database` tells is what is on the disk.
use typedb_mcp.Prelude.{
  ℕ, ◌≡◌, refl, String, Option, some, none, List, [], ◌∷◌, eqb_refl, ap, eq_refl, bytes, ◌∙◌,
}
use typedb_mcp.Coordinator.{OperationCoordinator, Reserved, reserved, refused, try_reserve}
use typedb_mcp.Wire.{Env}
use typedb_mcp.Session.{SessionSnapshot}
use typedb_mcp.Session.Store.{World, done, unlock}
use typedb_mcp.Session.Store.Resolve.{IsLive}
use typedb_mcp.Migration.Paths.{PathBuf}
use typedb_mcp.Migration.Disk.{
  System, Result, returned, raised, MigrationError, export_kind, Process,
}
use typedb_mcp.Migration.Jobs.{Job, MigrationReport, run_job}
use typedb_mcp.Migration.Supervisor.{
  Supervisor, Answer, result, submit, work, destinations, submit_reserved, send_normalized,
}
use typedb_mcp.Migration.Disk.Laws.{Lawful}
use typedb_mcp.Migration.Jobs.Exporting.Run.{Published, run_job-Published}
use typedb_mcp.Envelope.{
  explained, CallToolResult, Payload, migrated, Verdict, success, failure, state_error, envelope,
  envelope_ok, envelope_err, envelope_state_error,
}
use typedb_mcp.Tools.Migrate.Answering.{told, do_migration_answers, owned}
use typedb_mcp.Tools.Resolving.{entered}
use typedb_mcp.Kinds.{ExecutionContext}
use typedb_mcp.Router.{export_database, canonical, served_router}
use typedb_mcp.Router.Offers.{route}
use typedb_mcp.Tools.Migrate.Handlers.{handler_export_database}
use typedb_mcp.Tools.Migrate.Handlers.Offered.{export_offered}
use typedb_mcp.Tools.Migrate.{do_migration, Awaited, not_submitted, awaited}
use typedb_mcp.Tools.Migrate.Alone.{alone, received, worked, await_job, submitted, waiting}

-- The job as it is queued: its destinations normalized.
abbrev pub normalized : PathBuf × PathBuf → Job → Job
normalized (a, b) j = record j { schema = a; rows = b }

-- How a job that met a ready supervisor ended: refused with the supervisor as it was but for the clock of the
-- checks, or run to its end.
pub data Ran {s : System} (before : Process s) (j : Job) : Awaited → Process s → Type 0 where
  was_refused : (error : MigrationError) (p : Process s) → Ran before j (not_submitted error) p
  was_run :
      (paths : PathBuf × PathBuf) (p : Process s)
      → destinations s j before ≡ (returned paths, p)
      → Ran before j
          (awaited (result (run_job s (normalized paths j) p).0))
          (run_job s (normalized paths j) p).1

-- The process of the supervisor after the job.
abbrev pub left : {s : System} → Result MigrationError ℕ × Supervisor s → Process s
left (raised error, v) = v.process
left (returned n, v) = (worked v).process

module _ {s : System} (j : Job) (sid : String) (w : World) (p : Process s) (n : ℕ)
    (answers : List (ℕ × Answer)) where
  abbrev Ends : Result MigrationError ℕ × Supervisor s → Type 0
  Ends o = Ran p j (await_job sid o w).0 (left o)

  Ends-normalized :
      (name : String) (d : OperationCoordinator)
      (o : Result MigrationError (PathBuf × PathBuf) × Process s)
      → destinations s j p ≡ o
      → Ends (send_normalized name j o (waiting p d n answers))
  unfolding await_job received work
  Ends-normalized name d (returned paths, q) h = rw (eqb_refl n) (was_run paths q h)
  Ends-normalized name d (raised error, q) h = was_refused error q

  Ends-reserved :
      (c : OperationCoordinator) (o : Reserved) → Ends (submit_reserved o j (waiting p c n answers))
  Ends-reserved c (refused error) = unfold await_job in was_refused _ _
  Ends-reserved c (reserved name d) = Ends-normalized name d _ refl

  submitted-Ran : (c : OperationCoordinator) → Ends (submitted (waiting p c n answers) j w)
  unfolding submit
  submitted-Ran c = Ends-reserved w.coordinator (try_reserve w.coordinator j.database)

-- A success tells a report, and the two destinations of the job hold what it counts and hashes.
abbrev pub IsBacked : {s : System} → Job → Process s → Process s → Option Payload → Type 0
IsBacked j before after none = Unit {0}
IsBacked {s} j before after (some payload) =
    (report : MigrationReport) × (paths : PathBuf × PathBuf) × (p : Process s) × (payload
      ≡ migrated j.database report)
    × (destinations s j before ≡ (returned paths, p))
    × Published s (normalized paths j) report after.world

abbrev result_of : Verdict → Option Payload
result_of (success payload moves) = some payload
result_of (failure error moves) = none
result_of (state_error class moves) = none
result_of (explained class message moves) = none

module _ {s : System} (l : Lawful s) (before : Process s) (j : Job) (x : j.kind ≡ export_kind) where
  IsBacked-run :
      (paths : PathBuf × PathBuf) (p : Process s) (o : Result MigrationError MigrationReport)
      → destinations s j before ≡ (returned paths, p)
      → (run_job s (normalized paths j) p).0 ≡ o
      → IsBacked j before
          (run_job s (normalized paths j) p).1
          (result_of (told j.database (awaited (result o))))
  IsBacked-run paths p (raised error) d h = tt
  IsBacked-run paths p (returned report) d h =
      (report, paths, p, refl, d, run_job-Published l (normalized paths j) x p report h)

  Ran-IsBacked :
      {r : Awaited} {after : Process s}
      → Ran before j r after
      → IsBacked j before after (result_of (told j.database r))
  Ran-IsBacked (was_refused error p) = tt
  Ran-IsBacked (was_run paths p d) = IsBacked-run paths p _ d refl

envelope-result :
    (e : Env) (snap : SessionSnapshot) (verdict : Verdict)
    → (envelope e snap verdict).content.result ≡ result_of verdict
unfolding envelope envelope_ok envelope_err envelope_state_error
envelope-result e snap (success payload moves) = refl
envelope-result e snap (failure error moves) = refl
envelope-result e snap (state_error class moves) = refl
envelope-result e snap (explained class message moves) = refl

-- The guard is given back, whatever came of the job.
await_job-free :
    {s : System} (sid : String) (o : Result MigrationError ℕ × Supervisor s) (w : World)
    → w.held ≡ sid ∷ []
    → ((await_job sid o w).1.held ≡ []) × ((await_job sid o w).1.store_held ≡ w.store_held)
unfolding await_job unlock
await_job-free sid (raised error, v) w f = (rw f (rw eq_refl), refl)
await_job-free sid (returned n, v) w f = (rw f (rw eq_refl), refl)

-- With nothing else running, an export that is asked for at a handler whose router offers it, in a live
-- session without a transaction, is answered. If the answer is a success, it tells the report of
-- the job, and the job's two normalized destinations hold the bytes which that report counts and hashes.
pub export_alone-IsBacked :
    {s : System} (l : Lawful s) (p : Process s) (c : OperationCoordinator) (n : ℕ)
    (answers : List (ℕ × Answer)) (j : Job) (e : Env) (context : ExecutionContext) (sid : String)
    (w : World)
    → j.kind ≡ export_kind
    → route (bytes (canonical export_database)) (served_router e.config context)
      ≡ some export_database
    → IsLive e sid w
    → (w.arcs sid).tx ≡ none
    → let v = waiting p c n answers in
      (a : CallToolResult) × (u : World) × (handler_export_database e context sid j.database
          (alone v j sid)
          w
        ≡ done a u)
      × IsBacked j p (left (submitted v j (owned sid (entered e sid w)))) a.content.result
unfolding alone handler_export_database
export_alone-IsBacked l p c n answers j e context sid w x offered live h =
    let v = waiting p c n answers in
    let start : World = owned sid (entered e sid w) in
    let o = submitted v j start in
    let (f, t) = await_job-free sid o start (ap (λ held. sid ∷ held) live.free) in
    let (a, u, run, ended) =
      do_migration_answers e export_kind sid j.database none (alone v j sid) w
        (await_job sid o start).1 (await_job sid o start).0 live h refl refl f t in
    (
      a,
      u,
      ap (λ b. do_migration e b export_kind sid j.database none (alone v j sid) w)
            (export_offered e.config context offered)
          ∙ run,
      rw (ap (λ b. b.content.result) ended.answer ∙ envelope-result e _ _)
          (Ran-IsBacked l p j x (submitted-Ran j sid start p n answers c)),
    )
