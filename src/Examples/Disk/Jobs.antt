-- ===== src/Examples/Disk/Jobs.antt =====
-- The migration jobs in memory.
use typedb_mcp.Prelude.{
  ℕ, String, ◌≡◌, refl, true, false, none, some, List, [], ◌∷◌, bytes, contains, digits,
}
use typedb_mcp.Migration.Frames.{frames, read_varint, validate_frames}
use typedb_mcp.Migration.Paths.{
  PathBuf, parent, file_name, join, split_last, same_path, stage_name, to_text, spelled,
}
use typedb_mcp.Migration.Disk.{
  MigrationKind, export_kind, import_kind, file, directory, returned, Process, ◌>>=◌, ◌>>◌, pure,
  fail, look, act, attempt, on_error, ignore, ask, fetch_add,
}
use typedb_mcp.Migration.Checks.{
  ensure_free_space, available, utf8_from, first_byte, expands, lift, ok_or, refuse_if,
  ensure_filesystem_headroom, normalize_destination, validate_input, validate_schema, validate_pair,
  validate_destination, validate_export_inputs, checked, validate_frames_file,
}
use typedb_mcp.Migration.Jobs.{
  Job, MigrationReport, run_job, run_kind, import, stage, stage_path, stage_path_only, cleanup,
  guarded, unpublish, pump_or_unpublish, publish_noclobber, publish_second, hash_file,
  ensure_headroom, export_to_stage, publish_both, export_staged, export, import_from_stage,
  copy_checked, refuse_existing, import_staged,
}
use typedb_mcp.Migration.Jobs.Exporting.{Keeps}
use typedb_mcp.Migration.Jobs.Importing.{Guarded, Leaks}
use typedb_mcp.Migration.Jobs.Importing.Run.{run_job-Guarded, run_job-Leaks}
use typedb_mcp.Migration.Jobs.Exporting.Run.{run_job-Keeps}
use typedb_mcp.Migration.Disk.{System, raised, import_failed, absent}
use typedb_mcp.Migration.Backend.{MigrationDriver, backend_database_exists}
use typedb_mcp.Migration.Backend.Lookup.{Asks, lookup-Lost}
use typedb_mcp.Examples.Disk.{Files, put, memory, exported_schema, exported_data}
use typedb_mcp.Examples.Disk.Laws.{memory-Lawful}

abbrev inside : List ℕ → PathBuf
inside name = record { absolute = true; parts = bytes "d" ∷ name ∷ [] }

abbrev pub schema_path : PathBuf
schema_path = inside (bytes "s")

abbrev pub data_path : PathBuf
data_path = inside (bytes "r")

abbrev directory_only : Files
directory_only =
    put (record { absolute = true; parts = bytes "d" ∷ [] }) (some directory) (λ p. none)

abbrev with_files : Files
with_files =
    put data_path (some (file exported_data))
      (put schema_path (some (file exported_schema)) directory_only)

abbrev pub job : MigrationKind → Job
job kind = record {
  kind = kind;
  database = "shop";
  schema = schema_path;
  rows = data_path;
  schema_size_cap_bytes = 100;
  min_free_bytes = 1000;
}

abbrev pub empty_start : Process memory
empty_start = record { world = (directory_only, 0); stages = 0 }

abbrev full_start : Process memory
full_start = record { world = (with_files, 0); stages = 0 }

abbrev pub report : MigrationKind → List PathBuf → MigrationReport
report kind published = record {
  kind = kind;
  manifest = record {
    schema_size = 6;
    data_size = 2;
    schema_sha256 = exported_schema;
    data_sha256 = exported_data;
  };
  published = published;
}

run_job-Guarded_example :
    Guarded memory
      (job import_kind)
      full_start.world
      (run_job memory (job import_kind) full_start).1.world
run_job-Guarded_example = run_job-Guarded memory-Lawful (job import_kind) refl full_start

run_job-Keeps_example :
    Keeps memory empty_start.world (run_job memory (job export_kind) empty_start).1.world
run_job-Keeps_example = run_job-Keeps memory-Lawful (job export_kind) refl empty_start

imports : (run_job memory (job import_kind) full_start).0 ≡ returned (report import_kind [])
unfolding contains ◌>>=◌ ◌>>◌ pure fail look act attempt on_error ignore ask fetch_add
    ensure_free_space available utf8_from first_byte expands lift ok_or refuse_if
    ensure_filesystem_headroom normalize_destination validate_input validate_schema validate_pair
    validate_destination validate_export_inputs checked validate_frames_file run_kind import stage
    stage_path stage_path_only cleanup guarded unpublish pump_or_unpublish publish_noclobber
    publish_second hash_file ensure_headroom export_to_stage publish_both export_staged export
    import_from_stage copy_checked refuse_existing import_staged parent file_name join split_last
    same_path stage_name to_text spelled digits frames read_varint validate_frames
imports = refl

run_job-Leaks_example :
    Leaks memory
      (job import_kind)
      full_start.world
      (run_job memory (job import_kind) full_start).1.world
run_job-Leaks_example =
    run_job-Leaks memory-Lawful (job import_kind) refl full_start (report import_kind []) imports

exports :
    (run_job memory (job export_kind) empty_start).0
    ≡ returned (report export_kind (schema_path ∷ data_path ∷ []))
unfolding contains ◌>>=◌ ◌>>◌ pure fail look act attempt on_error ignore ask fetch_add
    ensure_free_space available utf8_from first_byte expands lift ok_or refuse_if
    ensure_filesystem_headroom normalize_destination validate_input validate_schema validate_pair
    validate_destination validate_export_inputs checked validate_frames_file run_kind import stage
    stage_path stage_path_only cleanup guarded unpublish pump_or_unpublish publish_noclobber
    publish_second hash_file ensure_headroom export_to_stage publish_both export_staged export
    import_from_stage copy_checked refuse_existing import_staged parent file_name join split_last
    same_path stage_name to_text spelled digits frames read_varint validate_frames
exports = refl

-- The connection is lost: every lookup fails, and so does the import.
abbrev offline : MigrationDriver
offline = record {
  World = Unit {0};
  Database = String;
  get = λ name w. (raised "lost", w);
  export_to_file = λ d front back w. (raised "lost", w);
  import_from_file = λ name content back w. (raised "lost", w);
  read_to_string = λ front w. returned [];
}

abbrev disconnected : System
disconnected = record memory {
  database_exists = λ name x. returned false;
  import_database = λ name front back w. (raised "lost", w);
}

disconnected-Asks : Asks disconnected offline
unfolding backend_database_exists
disconnected-Asks = record { at = λ x. tt; asked = λ name x. refl }

abbrev offline_start : Process disconnected
offline_start = record { world = (with_files, 0); stages = 0 }

lookup-Lost_example :
    (refuse_existing disconnected (job import_kind) offline_start ≡ (returned tt, offline_start))
    × ((import_from_stage disconnected (job import_kind) schema_path data_path offline_start).0
        ≡ raised (import_failed absent "lost"))
lookup-Lost_example =
    lookup-Lost disconnected-Asks (job import_kind) schema_path data_path offline_start "lost"
      ("lost", refl) refl ("lost", refl)
