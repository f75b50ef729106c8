-- ===== src/Lib.antt =====
-- Verification of typedb-mcp: the Model Context Protocol server that gives an agent sessions, transactions
-- and queries on a TypeDB server. The models follow the library crate crates/typedb-mcp-core and the binary
-- crates/typedb-mcp.
--
-- The parts and where they are modelled. Paths are from the repository's root, below
-- crates/typedb-mcp-core/src/.
--  * Kinds: `TxKind` (typedb.rs) and `ExecutionContext` (core.rs).
--  * Names, Coordinator: the checks of database names (coordinator.rs, tools.rs) and the reservations of
--    destructive operations (`OperationCoordinator`, coordinator.rs).
--  * Errors, Codes: `ErrorClass` and the classifier of error stacks (error.rs), `extract_codes`
--    (envelope.rs).
--  * Config: the operator's configuration and `ConnectionSettings::from_config` (config.rs).
--  * Wire: the client (typedb.rs) as calls to an arbitrary server: each reply is a function of the calls so
--    far. The clock and the UUIDs are given in the same way.
--  * Answers: `query_answer_to_json` (typedb.rs) up to the cap on answers, Answers/Json the rendering of one
--    answer.
--  * Session, Session/Store: `OpenTx`, `SessionState` and `SessionStore` (session.rs). A session's
--    `Arc<Mutex<SessionState>>` is an entry of a heap; every lock is explicit, and an operation that waits
--    for a lock that is held ends as `blocked`. Session/Store/Runs has an invariant of the process and the
--    rules by which a composed operation is shown to keep it without ever waiting.
--  * Envelope: the response envelope (envelope.rs). Envelope/NextMoves has the catalogue of advice, word for
--    word, and Envelope/NextMoves/Phrases what its lines say of a transaction.
--  * Tools: the handlers `do_…` of tools.rs. Tools/Transactions: open, checkpoint, commit, rollback.
--    Tools/Queries: query and read_once. Tools/Databases: start_session, list_databases, get_schema,
--    create_database and delete_database. A handler resolves its session by `TypeDbCore::resolve`
--    (core.rs), works in windows with the session's lock held, and answers. Tools/Discipline shows that each
--    keeps the invariant; Tools/Windowed and Tools/Resolving say what a handler starts and ends with.
--  * Tools/Migrate: `do_migration`, with the run of the job as an argument; Tools/Migrate/Alone fills it with
--    the supervisor and its jobs, while nothing else runs. Tools/ServerInfo: `do_server_info` around the
--    diagnostics.
--  * Router: `RawToolsConfig` and `raw_tools_router` (tools.rs), and the router of the reference handler
--    (handler.rs).
--  * Kernel: the transaction helpers of `SessionHandle` (core.rs): `with_read_tx`, `with_write_tx`,
--    `with_schema_tx` and `with_current_tx`, with the consumer's closure as an argument.
--  * Reaper: a round of `run_reaper` (session.rs) as an operation of the store, and its loop by the times at
--    which the rounds start.
--  * Server: the handlers, those of the two migration tools aside, as one process serves them, one request after
--    another.
--  * Connection: the settings of a driver, its connection and the check of the server's version
--    (connection.rs), over the driver library as an argument. Connection/Client: the clients of typedb.rs,
--    `TypeDbCore::connect` (core.rs) and the start of `main`.
--  * Diagnostics: the bounded report on the connection (diagnostics.rs), over the clock and the driver's calls
--    as an argument.
--  * Extensions: the typemap of consumers (extensions.rs).
--  * Migration (migration.rs): Frames is `validate_frames`, the check of dump files. Disk is the file system
--    and the backend that a job uses, as an argument: what the code calls, with Disk/Laws saying what it
--    relies on, and Disk/Triple the rules by which a run is followed through every return and error. Paths
--    has the paths, Checks the checks, Jobs the jobs `export` and `import` with the staged files;
--    Jobs/Importing and Jobs/Exporting follow them. Supervisor is the `MigrationSupervisor` with its worker
--    thread as steps: a step of the thread takes a job, runs it, or leaves the loop. Supervisor/Shutdown is
--    the wait of `shutdown`. Backend is the backend of the driver (typedb.rs).
--  * Binary: `main` of crates/typedb-mcp/src/main.rs from what wakes the process to its end.
--  * Consumer: `count_entities` of crates/example-semantic-mcp/src/main.rs, a tool of a consumer on the kernel.
--  * Examples: the theorems at concrete inputs.
--
-- Bounds and fuel. Times are nanoseconds and sizes are natural numbers; the varint reader keeps the 64-bit
-- limit of the source by its guard on the shift, the free bytes and the numbers of a version by a test
-- against `2 ^ 64`. `frames` and `scan` run on fuel: each round takes a byte at least, so as many rounds as
-- there are bytes are enough. `poll` runs on a look for each millisecond of the grace period and two more. Theorems below or
-- beside them say that the fuel never runs out. A text is its UTF-8 bytes where the source walks bytes.
--
-- Not modelled: the messages of errors, those aside with which a migration tool answers the end of its job
-- (an error of a migration is a constructor with the values printed in it), logging, the parameter types and texts of the tools, the transports and their tasks (they are known by
-- how they end), the tools `current_focus` and `set_focus` of the example consumer, other processes that change the files of a running job,
-- and the interleaving of two handlers or of a handler and the reaper: the requests of a session store are
-- served one after another. That somebody else holds a lock is seen in the state that an operation starts
-- from, and the run of a migration job may change the world at will.
pub mod Prelude
pub mod Kinds
pub mod Names
pub mod Coordinator
pub mod Errors
pub mod Config
pub mod Codes
pub mod Connection
pub mod Diagnostics
pub mod Extensions
pub mod Migration
pub mod Wire
pub mod Session
pub mod Answers
pub mod Envelope
pub mod Tools
pub mod Router
pub mod Kernel
pub mod Reaper
pub mod Server
pub mod Binary
pub mod Consumer
pub mod Examples
