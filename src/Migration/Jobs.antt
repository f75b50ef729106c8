-- ===== src/Migration/Jobs.antt =====
-- The jobs of crates/typedb-mcp-core/src/migration.rs: `run_job`, `export`, `import` and the handling of
-- the staged files. A job's locks and its reply are not part of its run.
pub mod Steps
pub mod Importing
pub mod Exporting
use typedb_mcp.Prelude.{ℕ, String, Bool, true, false, none, some, List, [], ◌∷◌, length}
use typedb_mcp.Migration.Paths.{PathBuf, parent, join, stage_name}
use typedb_mcp.Migration.Disk.{
  Result, returned, raised, System, MigrationKind, export_kind, import_kind, invalid_path, io, busy,
  backend, import_failed, second_publication, missing_parent, partial_removed, partial_survives,
  target_exists, TargetStatus, present, absent, unknown, Io, ◌>>=◌, ◌>>◌, pure, fail, look, act,
  ignore, attempt, on_error, ask, fetch_add, from_io,
}
use typedb_mcp.Migration.Checks.{
  ok_or, refuse_if, ensure_filesystem_headroom, validate_pair, validate_schema,
  validate_export_inputs, validate_frames_file,
}

-- What `run_job` reads of a `Job` and of its settings.
pub record Job : Type 0 where
  pub kind : MigrationKind
  pub database : String
  pub schema : PathBuf
  pub rows : PathBuf
  pub schema_size_cap_bytes : ℕ
  pub min_free_bytes : ℕ

pub record Manifest : Type 0 where
  pub schema_size : ℕ
  pub data_size : ℕ
  pub schema_sha256 : List ℕ
  pub data_sha256 : List ℕ

-- Every report's status is `ImportStatus::Complete`.
pub record MigrationReport : Type 0 where
  pub kind : MigrationKind
  pub manifest : Manifest
  pub published : List PathBuf

unfoldable pub stage_path : (s : System) → PathBuf → Io s PathBuf
stage_path s front = do
  n ← look from_io s.nanos
  id ← fetch_add
  pure (join front (stage_name s.pid n id))

unfoldable pub stage : (s : System) → PathBuf → Io s PathBuf
stage s p = do
  front ← ok_or (parent p) (invalid_path missing_parent)
  q ← stage_path s front
  act from_io (s.create_new q)
  pure q

unfoldable pub stage_path_only : (s : System) → PathBuf → Io s PathBuf
stage_path_only s p = do
  front ← ok_or (parent p) (invalid_path missing_parent)
  act from_io (s.create_dir_all front)
  stage_path s front

unfoldable pub cleanup : (s : System) → List PathBuf → Io s (Unit {0})
cleanup s [] = pure tt
cleanup s (p ∷ ps) = do ignore (s.remove_file p); cleanup s ps

-- What runs with the guard alive; a value means that it was disarmed at the end.
unfoldable pub guarded : {A : Type 0} (s : System) → List PathBuf → Io s A → Io s A
guarded s ps m = on_error m (λ e. cleanup s ps >> fail e)

-- The partial destination is removed, if that works.
unfoldable pub unpublish : (s : System) → PathBuf → String → Io s (Unit {0})
unpublish s to e = do
  attempt (s.remove_file to) (λ f. fail (io (partial_survives to e f)))
  fail (io (partial_removed to e))

unfoldable pub pump_or_unpublish : (s : System) → PathBuf → PathBuf → Io s (Unit {0})
pump_or_unpublish s from to = attempt (s.pump from to) (λ e. unpublish s to e)

unfoldable pub publish_noclobber : (s : System) → PathBuf → PathBuf → Io s (Unit {0})
publish_noclobber s from to = do
  act from_io (s.create_new to)
  look from_io (s.open_read from)
  pump_or_unpublish s from to
  act from_io (s.remove_file from)

-- The file is read in chunks; the count and the hash are those of all its bytes.
unfoldable pub hash_file : (s : System) → PathBuf → Io s (ℕ × List ℕ)
hash_file s p = do content ← look from_io (s.read p); pure (length content, s.sha256 content)

abbrev pub manifest_of : ℕ × List ℕ → ℕ × List ℕ → Manifest
manifest_of (n, h) (m, k) = record {
  schema_size = n;
  data_size = m;
  schema_sha256 = h;
  data_sha256 = k;
}

-- `Path::new("/")` stands in where a path has no parent.
abbrev pub directory_of : PathBuf → PathBuf
directory_of p = elim (parent p) [ none ↦ record { absolute = true; parts = [] } | some d ↦ d ]

unfoldable pub ensure_headroom : (s : System) → Job → Io s (Unit {0})
ensure_headroom s j = do
  ensure_filesystem_headroom s (directory_of j.schema) j.min_free_bytes
  ensure_filesystem_headroom s (directory_of j.rows) j.min_free_bytes

unfoldable pub export_to_stage : (s : System) → Job → PathBuf → PathBuf → Io s (Unit {0})
export_to_stage s j a b =
    attempt (s.export_database j.database a b) (λ e. cleanup s (a ∷ b ∷ []) >> fail (backend e))

unfoldable pub publish_second : (s : System) → Job → PathBuf → Io s (Unit {0})
publish_second s j b =
    on_error (publish_noclobber s b j.rows) (λ e. fail (second_publication j.schema e))

-- The end of `export`, what runs with its guard alive, and the whole.
unfoldable pub publish_both :
    (s : System) → Job → PathBuf → PathBuf → ℕ × List ℕ → ℕ × List ℕ → Io s MigrationReport
publish_both s j a b sm dm = do
  publish_noclobber s a j.schema
  publish_second s j b
  pure (record {
    kind = export_kind;
    manifest = manifest_of sm dm;
    published = j.schema ∷ j.rows ∷ [];
  })

unfoldable pub export_staged : (s : System) → Job → PathBuf → PathBuf → Io s MigrationReport
export_staged s j a b = do
  export_to_stage s j a b
  sm ← hash_file s a
  dm ← hash_file s b
  publish_both s j a b sm dm

unfoldable pub export : (s : System) → Job → Io s MigrationReport
export s j = do
  ensure_headroom s j
  a ← stage_path_only s j.schema
  b ← stage_path_only s j.rows
  guarded s (a ∷ b ∷ []) (export_staged s j a b)

abbrev pub status_of : Result String Bool → TargetStatus
status_of (returned true) = present
status_of (returned false) = absent
status_of (raised e) = unknown

-- The import proper, and what its failure says of the target.
unfoldable pub import_from_stage : (s : System) → Job → PathBuf → PathBuf → Io s (Unit {0})
import_from_stage s j a b = attempt (s.import_database j.database a b) (λ e. do
  status ← ask (λ w. status_of (s.database_exists j.database (s.server w)))
  fail (import_failed status e))

-- The staged copies, checked and hashed.
unfoldable pub copy_checked : (s : System) → Job → PathBuf → PathBuf → Io s Manifest
copy_checked s j a b = do
  act from_io (s.remove_file a)
  act from_io (s.remove_file b)
  act from_io (s.copy j.schema a)
  act from_io (s.copy j.rows b)
  validate_schema s a j.schema_size_cap_bytes
  validate_frames_file s b
  sm ← hash_file s a
  dm ← hash_file s b
  pure (manifest_of sm dm)

unfoldable pub refuse_existing : (s : System) → Job → Io s (Unit {0})
refuse_existing s j = do
  there ← look backend (λ w. s.database_exists j.database (s.server w))
  refuse_if there (busy target_exists)

unfoldable pub import_staged : (s : System) → Job → PathBuf → PathBuf → Io s MigrationReport
import_staged s j a b = do
  manifest ← copy_checked s j a b
  refuse_existing s j
  import_from_stage s j a b
  pure (record { kind = import_kind; manifest = manifest; published = [] })

unfoldable pub import : (s : System) → Job → Io s MigrationReport
import s j = do
  a ← stage s j.schema
  b ← stage s j.rows
  ensure_headroom s j
  guarded s (a ∷ b ∷ []) (import_staged s j a b)

unfoldable pub run_kind : (s : System) → MigrationKind → Job → Io s MigrationReport
run_kind s export_kind j = validate_export_inputs s j.schema j.rows >> export s j
run_kind s import_kind j = validate_pair s j.schema j.rows j.schema_size_cap_bytes >> import s j

abbrev pub run_job : (s : System) → Job → Io s MigrationReport
run_job s j = run_kind s j.kind j
