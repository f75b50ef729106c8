-- ===== src/Examples/Disk.antt =====
-- A file system in memory, a server that counts imports, and the migration jobs on them.
pub mod Laws
pub mod Jobs
use typedb_mcp.Prelude.{
  ℕ, suc, ◌+◌, ◌≡◌, ◌≢◌, refl, sym, ap, ◌∙◌, inl, inr, String, Bool, true, false, not, ◌&&◌, Option,
  none, some, List, [], ◌∷◌, arith, ltb, bytes, if◌then◌else◌, length, Bool-cases, Option-cases,
}
use typedb_mcp.Migration.Paths.{PathBuf, same_path}
use typedb_mcp.Migration.Paths.Names.{same_path_refl, same_path-eq}
use typedb_mcp.Migration.Disk.{
  System, Node, file, directory, link, other, Metadata, Result, returned, raised, Process,
  export_kind, import_kind,
}
use typedb_mcp.Migration.Disk.Laws.{Lawful}

abbrev pub Files : Type 0
Files = PathBuf → Option Node

abbrev pub put : PathBuf → Option Node → Files → Files
put p n f q = if same_path q p then n else f q

abbrev pub MemoryWorld : Type 0
MemoryWorld = Files × ℕ

abbrev Done : Type 0
Done = Result String (Unit {0}) × MemoryWorld

abbrev pub create_at : Option Node → PathBuf → MemoryWorld → Done
create_at none p (f, v) = (returned tt, (put p (some (file [])) f, v))
create_at (some n) p (f, v) = (raised "exists", (f, v))

abbrev pub remove_at : Option Node → PathBuf → MemoryWorld → Done
remove_at none p (f, v) = (raised "missing", (f, v))
remove_at (some n) p (f, v) = (returned tt, (put p none f, v))

abbrev pub copy_of : Option Node → PathBuf → MemoryWorld → Done
copy_of (some (file b)) p (f, v) = (returned tt, (put p (some (file b)) f, v))
copy_of (some directory) p w = (raised "not a file", w)
copy_of (some link) p w = (raised "not a file", w)
copy_of (some other) p w = (raised "not a file", w)
copy_of none p w = (raised "missing", w)

abbrev pub content : Option Node → Result String (List ℕ)
content (some (file b)) = returned b
content (some directory) = raised "not a file"
content (some link) = raised "not a file"
content (some other) = raised "not a file"
content none = raised "missing"

abbrev pub data_of : Option Node → Result String Metadata
data_of (some (file b)) = returned (record { is_dir = false; is_file = true; len = length b })
data_of (some directory) = returned (record { is_dir = true; is_file = false; len = 0 })
data_of (some link) = raised "link"
data_of (some other) = returned (record { is_dir = false; is_file = false; len = 0 })
data_of none = raised "missing"

abbrev pub is_there : Option Node → Bool
is_there none = false
is_there (some n) = true

abbrev pub canonical_of : Option Node → PathBuf → Result String PathBuf
canonical_of none p = raised "missing"
canonical_of (some n) p = returned p

abbrev pub exported_schema : List ℕ
exported_schema = bytes "define"

abbrev pub exported_data : List ℕ
exported_data = 1 ∷ 5 ∷ []

-- Both files at once, if neither is there and the paths are two.
abbrev pub export_at : Bool → PathBuf → PathBuf → MemoryWorld → Done
export_at false a b (f, v) =
    (returned tt, (put b (some (file exported_data)) (put a (some (file exported_schema)) f), v))
export_at true a b w = (raised "refused", w)

abbrev pub memory : System
memory = record {
  World = MemoryWorld;
  Server = ℕ;
  place = λ p. p;
  at = λ p w. w.0 p;
  server = λ w. w.1;
  exists = λ p w. is_there (w.0 p);
  metadata = λ p w. data_of (w.0 p);
  symlink_metadata = λ p w. data_of (w.0 p);
  canonicalize = λ p w. canonical_of (w.0 p) p;
  open_read = λ p w. if is_there (w.0 p) then returned tt else raised "missing";
  read = λ p w. content (w.0 p);
  statvfs = λ p w. some (4096, 1000);
  nanos = λ w. returned 5;
  pid = 7;
  sha256 = λ b. b;
  create_new = λ p w. create_at (w.0 p) p w;
  create_dir_all = λ p w. (returned tt, w);
  remove_file = λ p w. remove_at (w.0 p) p w;
  copy = λ from to w. copy_of (w.0 from) to w;
  pump = λ from to w. copy_of (w.0 from) to w;
  export_database = λ name a b w. export_at (same_path b a) a b w;
  import_database = λ name a b w. (returned tt, (w.0, suc w.1));
  database_exists = λ name v. returned (ltb 0 v);
}
