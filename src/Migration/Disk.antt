-- ===== src/Migration/Disk.antt =====
-- What crates/typedb-mcp-core/src/migration.rs uses of the operating system and of a `MigrationBackend`,
-- as a parameter, and the way an operation runs: it changes the world and returns a value or an error
-- (`?` is `>>=`). A text of an error is named by a constructor with the values printed in it; a text that
-- the operating system or the driver makes is a `String`. No other process touches the files meanwhile,
-- and links to directories stay where they point.
pub mod Laws
pub mod Triple
use typedb_mcp.Prelude.{ℕ, ◌+◌, ◌%◌, ◌^◌, String, Bool, true, false, Option, List}
use typedb_mcp.Migration.Frames.{FrameError}
use typedb_mcp.Migration.Paths.{PathBuf}

pub data Result (E A : Type 0) : Type 0 where
  returned : A → Result E A
  raised : E → Result E A

-- `is_ok`
abbrev pub returns : {E A : Type 0} → Result E A → Bool
returns (returned a) = true
returns (raised e) = false

pub data MigrationKind : Type 0 where
  export_kind import_kind : MigrationKind

-- What a path names: the bytes of a regular file, or something else.
pub data Node : Type 0 where
  file : List ℕ → Node
  directory link other : Node

-- `fs::Metadata`, of what stands behind a link.
pub record Metadata : Type 0 where
  pub is_dir : Bool
  pub is_file : Bool
  pub len : ℕ

-- The fields are what the code calls. `place` is the entry that a path names, links to directories
-- resolved, and `at` what stands there. `pump` is `io::copy` and `sync_all` into the file that
-- `create_new` has just made at the path. `server` is what the backend's calls act on.
pub record System : Type 1 where
  pub World : Type 0
  pub Server : Type 0
  pub place : PathBuf → PathBuf
  pub at : PathBuf → World → Option Node
  pub server : World → Server
  pub exists : PathBuf → World → Bool
  pub metadata : PathBuf → World → Result String Metadata
  pub symlink_metadata : PathBuf → World → Result String Metadata
  pub canonicalize : PathBuf → World → Result String PathBuf
  pub open_read : PathBuf → World → Result String (Unit {0})
  pub read : PathBuf → World → Result String (List ℕ)
  pub statvfs : PathBuf → World → Option (ℕ × ℕ)
  pub nanos : World → Result String ℕ
  pub pid : ℕ
  pub sha256 : List ℕ → List ℕ
  pub create_new : PathBuf → World → Result String (Unit {0}) × World
  pub create_dir_all : PathBuf → World → Result String (Unit {0}) × World
  pub remove_file : PathBuf → World → Result String (Unit {0}) × World
  pub copy : PathBuf → PathBuf → World → Result String (Unit {0}) × World
  pub pump : PathBuf → PathBuf → World → Result String (Unit {0}) × World
  pub export_database : String → PathBuf → PathBuf → World → Result String (Unit {0}) × World
  pub import_database : String → PathBuf → PathBuf → World → Result String (Unit {0}) × World
  pub database_exists : String → Server → Result String Bool

-- The texts of `MigrationError::InvalidPath`.
pub data PathError : Type 0 where
  headroom : PathBuf → ℕ → ℕ → PathError
  paths_alias destination_not_absolute expansion_rejected destination_exists : PathError
  missing_destination_parent parent_not_directory missing_destination_filename : PathError
  schema_exceeds_cap schema_not_utf8 path_not_absolute not_regular_file missing_parent : PathError
  invalid_database_name : PathError

-- The texts of `MigrationError::Io`.
pub data IoError : Type 0 where
  system : String → IoError
  destination_parent : String → IoError
  partial_removed : PathBuf → String → IoError
  partial_survives : PathBuf → String → String → IoError

-- The texts of `MigrationError::Busy`.
pub data BusyError : Type 0 where
  shutdown_has_started already_running target_exists worker_is_gone : BusyError
  name_reserved : String → BusyError

pub data TargetStatus : Type 0 where
  present absent unknown : TargetStatus

pub data MigrationError : Type 0 where
  invalid_path : PathError → MigrationError
  io : IoError → MigrationError
  second_publication : PathBuf → MigrationError → MigrationError
  busy : BusyError → MigrationError
  invalid_frame : FrameError → MigrationError
  stuck : MigrationError
  backend : String → MigrationError
  import_failed : TargetStatus → String → MigrationError
  shutdown : MigrationError

-- The world, and the static `STAGE_COUNTER`.
pub record Process (s : System) : Type 0 where
  pub world : s.World
  pub stages : ℕ

abbrev pub Io : System → Type 0 → Type 0
Io s A = Process s → Result MigrationError A × Process s

-- A call whose failure goes through `wrap`.
abbrev pub wrapped :
    {A : Type 0} → (String → MigrationError) → Result String A → Result MigrationError A
wrapped wrap (returned a) = returned a
wrapped wrap (raised e) = raised (wrap e)

module _ {s : System} where
  abbrev pub continue :
      {A B : Type 0}
      → Result MigrationError A × Process s
      → (A → Io s B)
      → Result MigrationError B × Process s
  continue (returned a, p) f = f a p
  continue (raised e, p) f = (raised e, p)

  infixl 5 ◌>>=◌ ◌>>◌
  unfoldable pub ◌>>=◌ : {A B : Type 0} → Io s A → (A → Io s B) → Io s B
  ◌>>=◌ m f p = continue (m p) f

  unfoldable pub ◌>>◌ : {A B : Type 0} → Io s A → Io s B → Io s B
  unfolding ◌>>=◌
  m >> n = m >>= λ _. n

  unfoldable pub pure : {A : Type 0} → A → Io s A
  pure a p = (returned a, p)

  unfoldable pub fail : {A : Type 0} → MigrationError → Io s A
  fail e p = (raised e, p)

  -- A call that only looks, and one that changes the world.
  unfoldable pub look :
      {A : Type 0} → (String → MigrationError) → (s.World → Result String A) → Io s A
  look wrap f p = (wrapped wrap (f p.world), p)

  unfoldable pub act :
      {A : Type 0} → (String → MigrationError) → (s.World → Result String A × s.World) → Io s A
  act wrap f p = let (r, w) = f p.world in (wrapped wrap r, record p { world = w })

  -- `let _ = …`
  unfoldable pub ignore : (s.World → Result String (Unit {0}) × s.World) → Io s (Unit {0})
  ignore f p = let (_, w) = f p.world in (returned tt, record p { world = w })

  -- `if let Err(e) = …` on a call and on an operation.
  abbrev pub recover :
      {E A : Type 0} → Result E A × Process s → (E → Io s A) → Result MigrationError A × Process s
  recover (returned a, p) h = (returned a, p)
  recover (raised e, p) h = h e p

  unfoldable pub attempt :
      {A : Type 0} → (s.World → Result String A × s.World) → (String → Io s A) → Io s A
  attempt f h p = let (r, w) = f p.world in recover (r, record p { world = w }) h

  unfoldable pub on_error : {A : Type 0} → Io s A → (MigrationError → Io s A) → Io s A
  on_error m h p = recover (m p) h

  unfoldable pub ask : {A : Type 0} → (s.World → A) → Io s A
  ask f p = (returned (f p.world), p)

  -- `STAGE_COUNTER.fetch_add(1)`
  unfoldable pub fetch_add : Io s ℕ
  fetch_add p = (returned p.stages, record p { stages = (p.stages + 1) % 2 ^ 64 })

-- `impl From<io::Error> for MigrationError`
abbrev pub from_io : String → MigrationError
from_io e = io (system e)
