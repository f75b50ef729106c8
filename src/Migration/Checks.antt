-- ===== src/Migration/Checks.antt =====
-- The checks of crates/typedb-mcp-core/src/migration.rs that a job makes on paths, free space and the
-- contents of its files. `p.as_os_str().is_empty()` is never true of an absolute path.
pub mod Quiet
pub mod Finds
pub mod Headroom
use typedb_mcp.Prelude.{
  ℕ, zero, suc, ◌*◌, ◌-◌, ◌/◌, ◌^◌, Bool, true, false, not, ◌&&◌, ◌||◌, Option, none, some, List,
  [], ◌∷◌, eqb, leb, ltb, if◌then◌else◌, bytes, starts_with, contains,
}
use typedb_mcp.Migration.Frames.{
  Validated, ok, invalid_frame, stuck as out_of_fuel, validate_frames,
}
use typedb_mcp.Migration.Paths.{PathBuf, parent, file_name, join, to_text, same_path}
use typedb_mcp.Migration.Disk.{
  Result, returned, raised, returns, System, MigrationError, invalid_path, io,
  invalid_frame as invalid_frame_error, stuck, headroom, paths_alias, destination_not_absolute,
  expansion_rejected, destination_exists, missing_destination_parent, parent_not_directory,
  missing_destination_filename, schema_exceeds_cap, schema_not_utf8, path_not_absolute,
  not_regular_file, destination_parent, Io, ◌>>=◌, ◌>>◌, pure, fail, look, ask, from_io,
}

unfoldable pub ensure_free_space : PathBuf → Option ℕ → ℕ → Result MigrationError (Unit {0})
ensure_free_space path none required = returned tt
ensure_free_space path (some available) required =
    if leb required available
    then returned tt
    else raised (invalid_path (headroom path available required))

-- `f_bavail * f_frsize` as a `u128`, and as a `u64` if it fits.
unfoldable pub available : Option (ℕ × ℕ) → Option ℕ
available none = none
available (some (bavail, frsize)) =
    let n = bavail * frsize in
    if ltb n (2 ^ 128) then (if ltb n (2 ^ 64) then some n else none) else none

-- `str::from_utf8`: how many bytes must follow a first byte, and the range of the next one.
unfoldable pub first_byte : ℕ → Option (ℕ × ℕ × ℕ)
first_byte b =
    if ltb b 128
    then some (0, 128, 191)
    else if ltb b 194
    then none
    else if ltb b 224
    then some (1, 128, 191)
    else if ltb b 240
    then some (2, if eqb b 224 then 160 else 128, if eqb b 237 then 159 else 191)
    else if ltb b 245
    then some (3, if eqb b 240 then 144 else 128, if eqb b 244 then 143 else 191)
    else none

unfoldable pub utf8_from : ℕ → ℕ → ℕ → List ℕ → Bool
unfolding first_byte
utf8_from zero lo hi [] = true
utf8_from (suc n) lo hi [] = false
utf8_from zero lo hi (b ∷ bs) = elim (first_byte b) [
  | none ↦ false
  | some (n, lo', hi') ↦ utf8_from n lo' hi' bs
]
utf8_from (suc n) lo hi (b ∷ bs) = leb lo b && leb b hi && utf8_from n 128 191 bs

abbrev pub is_utf8 : List ℕ → Bool
is_utf8 bs = utf8_from 0 128 191 bs

-- `~`, `${` and a leading `file:`
unfoldable pub expands : PathBuf → Bool
unfolding to_text
expands p =
    let t = to_text p in
    contains t (bytes "~") || contains t (bytes "${") || starts_with t (bytes "file:")

module _ {s : System} where
  unfoldable pub lift : {A : Type 0} → Result MigrationError A → Io s A
  lift (returned a) = pure a
  lift (raised e) = fail e

  unfoldable pub ok_or : {A : Type 0} → Option A → MigrationError → Io s A
  ok_or none e = fail e
  ok_or (some a) e = pure a

  unfoldable pub refuse_if : Bool → MigrationError → Io s (Unit {0})
  refuse_if b e = if b then fail e else pure tt

-- `filesystem_available` inlined: the call fails, or the product does not fit, and nothing is checked.
unfoldable pub ensure_filesystem_headroom : (s : System) → PathBuf → ℕ → Io s (Unit {0})
ensure_filesystem_headroom s path required = do
  space ← ask (s.statvfs path)
  lift (ensure_free_space path (available space) required)

unfoldable pub normalize_destination : (s : System) → PathBuf → Io s PathBuf
normalize_destination s p = do
  refuse_if (not p.absolute) (invalid_path destination_not_absolute)
  front ← ok_or (parent p) (invalid_path missing_destination_parent)
  dir ← look (λ e. io (destination_parent e)) (s.canonicalize front)
  name ← ok_or (file_name p) (invalid_path missing_destination_filename)
  pure (join dir name)

unfoldable pub validate_input : (s : System) → PathBuf → Io s PathBuf
validate_input s p = do
  refuse_if (not p.absolute) (invalid_path path_not_absolute)
  refuse_if (expands p) (invalid_path expansion_rejected)
  q ← look from_io (s.canonicalize p)
  m ← look from_io (s.metadata q)
  refuse_if (not m.is_file) (invalid_path not_regular_file)
  pure q

unfoldable pub validate_schema : (s : System) → PathBuf → ℕ → Io s PathBuf
validate_schema s p cap = do
  q ← validate_input s p
  m ← look from_io (s.metadata q)
  refuse_if (ltb cap m.len) (invalid_path schema_exceeds_cap)
  content ← look from_io (s.read q)
  refuse_if (not (is_utf8 content)) (invalid_path schema_not_utf8)
  pure q

unfoldable pub validate_pair : (s : System) → PathBuf → PathBuf → ℕ → Io s (Unit {0})
validate_pair s schema rows cap = do
  a ← validate_schema s schema cap
  b ← validate_input s rows
  refuse_if (same_path a b) (invalid_path paths_alias)

-- One round of the loop over the two destinations.
unfoldable pub validate_destination : (s : System) → PathBuf → Io s (Unit {0})
validate_destination s p = do
  refuse_if (not p.absolute) (invalid_path destination_not_absolute)
  refuse_if (expands p) (invalid_path expansion_rejected)
  there ← ask (s.exists p)
  seen ← ask (λ w. returns (s.symlink_metadata p w))
  refuse_if (there || seen) (invalid_path destination_exists)
  front ← ok_or (parent p) (invalid_path missing_destination_parent)
  m ← look from_io (s.metadata front)
  refuse_if (not m.is_dir) (invalid_path parent_not_directory)

unfoldable pub validate_export_inputs : (s : System) → PathBuf → PathBuf → Io s (Unit {0})
validate_export_inputs s schema rows = do
  a ← normalize_destination s schema
  b ← normalize_destination s rows
  validate_destination s a
  validate_destination s b
  refuse_if (same_path a b) (invalid_path paths_alias)

-- `validate_frames`, on the file that the path names: opening and reading it fail alike.
unfoldable pub checked : Validated → Result MigrationError (Unit {0})
checked ok = returned tt
checked (invalid_frame e) = raised (invalid_frame_error e)
checked out_of_fuel = raised stuck

unfoldable pub validate_frames_file : (s : System) → PathBuf → Io s (Unit {0})
validate_frames_file s p = do
  content ← look from_io (s.read p)
  lift (checked (validate_frames content))
