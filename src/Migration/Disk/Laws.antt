-- ===== src/Migration/Disk/Laws.antt =====
-- What the operating system and the backend are relied on for.
use typedb_mcp.Prelude.{ℕ, ◌≡◌, ◌≢◌, String, none, some, List, [], length}
use typedb_mcp.Migration.Paths.{PathBuf, file_name}
use typedb_mcp.Migration.Disk.{Metadata, Node, file, returned, System}

-- The first argument of a law is an entry: what stands there is kept.
pub record Lawful (s : System) : Type 0 where
  -- The entry bears the path's own last name.
  pub place_name : (p : PathBuf) → file_name (s.place p) ≡ file_name p
  -- `create_new` makes an empty file where nothing was, and never touches what exists.
  pub create_new_keeps :
      (q : PathBuf) (n : Node) (p : PathBuf) (w : s.World)
      → s.at q w ≡ some n
      → s.at q (s.create_new p w).1 ≡ some n
  pub create_new_fresh :
      (p : PathBuf) (w : s.World)
      → (s.create_new p w).0 ≡ returned tt
      → (s.at (s.place p) w ≡ none) × (s.at (s.place p) (s.create_new p w).1 ≡ some (file []))
  pub create_dir_all_keeps :
      (q : PathBuf) (n : Node) (p : PathBuf) (w : s.World)
      → s.at q w ≡ some n
      → s.at q (s.create_dir_all p w).1 ≡ some n
  pub remove_file_others :
      (q p : PathBuf) (w : s.World) → q ≢ s.place p → s.at q (s.remove_file p w).1 ≡ s.at q w
  pub remove_file_gone :
      (p : PathBuf) (w : s.World)
      → (s.remove_file p w).0 ≡ returned tt
      → s.at (s.place p) (s.remove_file p w).1 ≡ none
  -- Where nothing is, `copy` makes a file of the bytes that the source, links followed, is read as.
  pub copy_others :
      (q from to : PathBuf) (w : s.World)
      → s.at (s.place to) w ≡ none
      → q ≢ s.place to
      → s.at q (s.copy from to w).1 ≡ s.at q w
  pub copy_file :
      (from to : PathBuf) (w : s.World)
      → s.at (s.place to) w ≡ none
      → (s.copy from to w).0 ≡ returned tt
      → (b : List ℕ) × (s.read from w ≡ returned b)
        × (s.at (s.place to) (s.copy from to w).1 ≡ some (file b))
  pub pump_others :
      (q from to : PathBuf) (w : s.World) → q ≢ s.place to → s.at q (s.pump from to w).1 ≡ s.at q w
  pub pump_file :
      (from to : PathBuf) (w : s.World) (b : List ℕ)
      → s.at (s.place from) w ≡ some (file b)
      → s.at (s.place to) w ≡ some (file [])
      → (s.pump from to w).0 ≡ returned tt
      → s.at (s.place to) (s.pump from to w).1 ≡ some (file b)
  -- A regular file is read as its bytes.
  pub read_file :
      (p : PathBuf) (w : s.World) (b c : List ℕ)
      → s.at (s.place p) w ≡ some (file b)
      → s.read p w ≡ returned c
      → c ≡ b
  -- While every entry stays what it is, a path is read alike, links followed.
  pub read_same :
      (p : PathBuf) (w v : s.World) (b c : List ℕ)
      → ((q : PathBuf) (n : Node) → s.at q w ≡ some n → s.at q v ≡ some n)
      → s.read p w ≡ returned b
      → s.read p v ≡ returned c
      → c ≡ b
  -- The canonical path of a regular file names that file, and `len` counts its bytes.
  pub canonicalize_file :
      (p q : PathBuf) (w : s.World) (b : List ℕ)
      → s.at (s.place p) w ≡ some (file b)
      → s.canonicalize p w ≡ returned q
      → s.at (s.place q) w ≡ some (file b)
  pub metadata_file :
      (p : PathBuf) (w : s.World) (b : List ℕ) (m : Metadata)
      → s.at (s.place p) w ≡ some (file b)
      → s.metadata p w ≡ returned m
      → m.len ≡ length b
  -- The export makes its two files, each of them new, and touches no other; the import only reads.
  pub export_database_others :
      (q : PathBuf) (name : String) (schema rows : PathBuf) (w : s.World)
      → q ≢ s.place schema
      → q ≢ s.place rows
      → s.at q (s.export_database name schema rows w).1 ≡ s.at q w
  pub export_database_files :
      (name : String) (schema rows : PathBuf) (w : s.World)
      → (s.export_database name schema rows w).0 ≡ returned tt
      → (s.place rows ≢ s.place schema)
        × ((b : List ℕ) × (s.at (s.place schema) (s.export_database name schema rows w).1
              ≡ some (file b)))
        × ((b : List ℕ) × (s.at (s.place rows) (s.export_database name schema rows w).1
              ≡ some (file b)))
  pub import_database_others :
      (q : PathBuf) (name : String) (schema rows : PathBuf) (w : s.World)
      → s.at q (s.import_database name schema rows w).1 ≡ s.at q w
  -- The server is not in the file system.
  pub create_new_server : (p : PathBuf) (w : s.World) → s.server (s.create_new p w).1 ≡ s.server w
  pub remove_file_server : (p : PathBuf) (w : s.World) → s.server (s.remove_file p w).1 ≡ s.server w
  pub copy_server : (from to : PathBuf) (w : s.World) → s.server (s.copy from to w).1 ≡ s.server w
