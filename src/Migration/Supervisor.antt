-- ===== src/Migration/Supervisor.antt =====
-- `MigrationSupervisor` of crates/typedb-mcp-core/src/migration.rs and its worker thread: the flags, the
-- semaphore with its one permit, the channel, the coordinator that the supervisor shares with the tools,
-- and the answers that were sent. A job owns the permit and its reservation until it is dropped. The
-- session's lock, which it owns too, is not part of the model. The reservations that tools hold are kept beside it.
pub mod Admission
pub mod Answering
pub mod Shutdown
use typedb_mcp.Prelude.{
  ℕ, suc, ◌≡◌, ◌++◌, has, discard, String, Bool, true, false, not, Option, none, some, List, [],
  ◌∷◌, if◌then◌else◌,
}
use typedb_mcp.Coordinator.{
  OperationCoordinator, ReservationError, Reserved, busy as reserved_already, invalid_name,
  reserved, refused, try_reserve, release, is_reserved,
}
use typedb_mcp.Migration.Paths.{PathBuf}
use typedb_mcp.Migration.Disk.{
  System, MigrationKind, export_kind, import_kind, Result, returned, raised, MigrationError, busy,
  invalid_path, backend, invalid_database_name, shutdown_has_started, already_running,
  worker_is_gone, name_reserved, Process, Io, ◌>>=◌, pure,
}
use typedb_mcp.Migration.Checks.{normalize_destination}
use typedb_mcp.Migration.Jobs.{Job, MigrationReport, run_job}

-- A job in the channel or with the worker; the number stands for the receiver of its answer.
pub record Ticket : Type 0 where
  pub id : ℕ
  pub job : Job

-- Where the worker is: waiting for a job, with one, behind its loop, or ended.
pub data Worker : Type 0 where
  idle exited ended : Worker
  running : Ticket → Worker

-- What a receiver gets: the result of the job, or that the job was dropped.
pub data Answer : Type 0 where
  result : Result MigrationError MigrationReport → Answer
  dropped : Answer

pub record Supervisor (s : System) : Type 0 where
  pub process : Process s
  pub accepting : Bool
  pub stop : Bool
  pub completed : Bool
  pub permit : Bool
  pub queue : List Ticket
  pub worker : Worker
  pub factory_error : Option String
  pub coordinator : OperationCoordinator
  -- The names whose reservations tools hold.
  pub tools : List String
  pub next_id : ℕ
  pub answers : List (ℕ × Answer)

unfoldable pub with_factory_and_settings :
    (s : System) → Process s → OperationCoordinator → Option String → Supervisor s
with_factory_and_settings s p c e = record {
  process = p;
  accepting = true;
  stop = false;
  completed = false;
  permit = true;
  queue = [];
  worker = idle;
  factory_error = e;
  coordinator = c;
  tools = [];
  next_id = 0;
  answers = [];
}

unfoldable pub stop_admission : {s : System} → Supervisor s → Supervisor s
stop_admission v = record v { accepting = false }

-- What `shutdown` does before it waits for `completed`.
unfoldable pub shutdown_request : {s : System} → Supervisor s → Supervisor s
shutdown_request v = record v { accepting = false; stop = true }

abbrev pub destination_of : (s : System) → MigrationKind → PathBuf → Io s PathBuf
destination_of s export_kind p = normalize_destination s p
destination_of s import_kind p = pure p

unfoldable pub destinations : (s : System) → Job → Io s (PathBuf × PathBuf)
destinations s j = do
  a ← destination_of s j.kind j.schema
  b ← destination_of s j.kind j.rows
  pure (a, b)

abbrev is_ended : Worker → Bool
is_ended ended = true
is_ended idle = false
is_ended exited = false
is_ended (running t) = false

-- With the permit and the reservation of `name`, which come back if the receiver is gone.
abbrev send : {s : System} → String → Job → Supervisor s → Result MigrationError ℕ × Supervisor s
send name j v =
    if is_ended v.worker
    then (raised (busy worker_is_gone), record v { coordinator = release v.coordinator name })
    else (
      returned v.next_id,
      record v {
        permit = false;
        next_id = suc v.next_id;
        queue = v.queue ++ record { id = v.next_id; job = j } ∷ [];
      },
    )

abbrev pub send_normalized :
    {s : System}
    → String
    → Job
    → Result MigrationError (PathBuf × PathBuf) × Process s
    → Supervisor s
    → Result MigrationError ℕ × Supervisor s
send_normalized name j (returned (a, b), p) v =
    send name (record j { schema = a; rows = b }) (record v { process = p })
send_normalized name j (raised e, p) v =
    (raised e, record v { process = p; coordinator = release v.coordinator name })

abbrev of_reservation : ReservationError → MigrationError
of_reservation (reserved_already name) = busy (name_reserved name)
of_reservation invalid_name = invalid_path invalid_database_name

abbrev pub submit_reserved :
    {s : System} → Reserved → Job → Supervisor s → Result MigrationError ℕ × Supervisor s
submit_reserved (refused e) j v = (raised (of_reservation e), v)
submit_reserved {s} (reserved name c) j v =
    send_normalized name j (destinations s j v.process) (record v { coordinator = c })

unfoldable pub submit : {s : System} → Job → Supervisor s → Result MigrationError ℕ × Supervisor s
submit j v =
    if not v.accepting
    then (raised (busy shutdown_has_started), v)
    else if not v.permit
    then (raised (busy already_running), v)
    else submit_reserved (try_reserve v.coordinator j.database) j v

-- A job is dropped: its permit and its reservation come back.
abbrev give_back : {s : System} → Ticket → Answer → Supervisor s → Supervisor s
give_back t a v = record v {
  permit = true;
  coordinator = release v.coordinator t.job.database;
  answers = (t.id, a) ∷ v.answers;
}

unfoldable pub drop_all : {s : System} → List Ticket → Supervisor s → Supervisor s
drop_all [] v = v
drop_all (t ∷ ts) v = drop_all ts (give_back t dropped v)

-- Without a backend every job is answered with the factory's error.
abbrev execute : (s : System) → Option String → Job → Io s MigrationReport
execute s none j p = run_job s j p
execute s (some e) j p = (raised (backend e), p)

abbrev finish :
    {s : System}
    → Ticket
    → Result MigrationError MigrationReport × Process s
    → Supervisor s
    → Supervisor s
finish t (r, p) v = give_back t (result r) (record v { process = p; worker = idle })

abbrev take_job : {s : System} → List Ticket → Supervisor s → Supervisor s
take_job [] v = v
take_job (t ∷ ts) v = record v { queue = ts; worker = running t }

-- One step of the thread: it looks at `stop` and takes a job, or it runs the job that it has, or it
-- leaves the loop, and then drops what is left in the channel. The supervisor outlives the thread, so the
-- channel is never disconnected.
abbrev advance : {s : System} → Worker → Supervisor s → Supervisor s
advance idle v =
    if v.stop then record v { worker = exited; completed = true } else take_job v.queue v
advance {s} (running t) v = finish t (execute s v.factory_error t.job v.process) v
advance exited v = drop_all v.queue (record v { worker = ended; queue = [] })
advance ended v = v

unfoldable pub work : {s : System} → Supervisor s → Supervisor s
work v = advance v.worker v

-- The jobs that are not dropped yet.
abbrev at_work : Worker → List Ticket
at_work (running t) = t ∷ []
at_work idle = []
at_work exited = []
at_work ended = []

abbrev pub alive : {s : System} → Supervisor s → List Ticket
alive v = at_work v.worker ++ v.queue

-- The steps of the process that bear on the supervisor. The last two are a tool's, which reserves a name
-- and drops a reservation that it holds.
pub data Step {s : System} (v w : Supervisor s) : Type 0 where
  submits : (j : Job) → w ≡ (submit j v).1 → Step v w
  works : w ≡ work v → Step v w
  stops_admission : w ≡ stop_admission v → Step v w
  shuts_down : w ≡ shutdown_request v → Step v w
  tool_reserves :
      (database name : String) (c : OperationCoordinator)
      → try_reserve v.coordinator database ≡ reserved name c
      → w ≡ record v { coordinator = c; tools = name ∷ v.tools }
      → Step v w
  tool_releases :
      (name : String)
      → has name v.tools ≡ true
      → w ≡ record v { coordinator = release v.coordinator name; tools = discard name v.tools }
      → Step v w

pub data Reach {s : System} (v : Supervisor s) : Supervisor s → Type 0 where
  here : Reach v v
  next : {u w : Supervisor s} → Reach v u → Step u w → Reach v w
