-- ===== src/Migration/Backend.antt =====
-- `TypeDbMigrationBackend` of crates/typedb-mcp-core/src/typedb.rs, the `MigrationBackend` of the jobs, over
-- the driver library as an argument. Its private runtime waits for each call.
pub mod Lookup
use typedb_mcp.Prelude.{ℕ, String, Bool, List}
use typedb_mcp.Migration.Paths.{PathBuf}
use typedb_mcp.Migration.Disk.{Result, returned, raised, returns}

-- `databases().get`, `export_to_file` of a database, `databases().import_from_file`, and `read_to_string` of
-- the file system. An error is its text.
pub record MigrationDriver : Type 1 where
  pub World : Type 0
  pub Database : Type 0
  pub get : String → World → Result String Database × World
  pub export_to_file : Database → PathBuf → PathBuf → World → Result String (Unit {0}) × World
  pub import_from_file : String → List ℕ → PathBuf → World → Result String (Unit {0}) × World
  pub read_to_string : PathBuf → World → Result String (List ℕ)

abbrev export_found :
    (d : MigrationDriver)
    → PathBuf
    → PathBuf
    → Result String d.Database × d.World
    → Result String (Unit {0}) × d.World
export_found d front back (returned db, w) = d.export_to_file db front back w
export_found d front back (raised e, w) = (raised e, w)

unfoldable pub backend_export_database :
    (d : MigrationDriver)
    → String
    → PathBuf
    → PathBuf
    → d.World
    → Result String (Unit {0}) × d.World
backend_export_database d database front back w = export_found d front back (d.get database w)

abbrev import_content :
    (d : MigrationDriver)
    → String
    → PathBuf
    → d.World
    → Result String (List ℕ)
    → Result String (Unit {0}) × d.World
import_content d database back w (returned content) = d.import_from_file database content back w
import_content d database back w (raised e) = (raised e, w)

unfoldable pub backend_import_database :
    (d : MigrationDriver)
    → String
    → PathBuf
    → PathBuf
    → d.World
    → Result String (Unit {0}) × d.World
backend_import_database d database front back w =
    import_content d database back w (d.read_to_string front w)

-- `Ok(self.block(..).is_ok())`
unfoldable pub backend_database_exists :
    (d : MigrationDriver) → String → d.World → Result String Bool
backend_database_exists d database w = returned (returns (d.get database w).0)
