-- ===== src/Migration/Paths.antt =====
-- Paths, as the standard library reads them on Unix: whether a path begins at the root, and its
-- components as bytes, `.` and repeated slashes left out. The last part of the file has the names that
-- `stage` and `stage_path_only` of crates/typedb-mcp-core/src/migration.rs make up.
pub mod Names
use typedb_mcp.Prelude.{
  same_bytes, ℕ, zero, suc, ◌+◌, ◌/◌, ◌%◌, Bool, true, false, not, ◌&&◌, ◌||◌, Option, none, some,
  List, [], ◌∷◌, ◌++◌, eqb, ltb, if◌then◌else◌, bytes, decimal,
}

pub record PathBuf : Type 0 where
  pub absolute : Bool
  pub parts : List (List ℕ)

abbrev pub same_parts : List (List ℕ) → List (List ℕ) → Bool
same_parts [] [] = true
same_parts [] (b ∷ bs) = false
same_parts (a ∷ rest) [] = false
same_parts (a ∷ rest) (b ∷ bs) = same_bytes a b && same_parts rest bs

abbrev same_flag : Bool → Bool → Bool
same_flag true b = b
same_flag false b = not b

-- `==` on paths
unfoldable pub same_path : PathBuf → PathBuf → Bool
same_path p q = same_flag p.absolute q.absolute && same_parts p.parts q.parts

-- All components but the last, and the last.
unfoldable pub split_last : List (List ℕ) → Option (List (List ℕ) × List ℕ)
split_last [] = none
split_last (a ∷ rest) = elim (split_last rest) [
  | none ↦ some ([], a)
  | some (front, last) ↦ some (a ∷ front, last)
]

-- `Path::parent`
unfoldable pub parent : PathBuf → Option PathBuf
parent p = elim (split_last p.parts) [
  | none ↦ none
  | some (front, last) ↦ some (record { absolute = p.absolute; parts = front })
]

-- `Path::file_name`: a path that ends in `..` has none.
abbrev pub normal_component : Option (List (List ℕ) × List ℕ) → Option (List ℕ)
normal_component none = none
normal_component (some (front, last)) = if same_bytes last (bytes "..") then none else some last

unfoldable pub file_name : PathBuf → Option (List ℕ)
file_name p = normal_component (split_last p.parts)

-- `Path::join` with one component
unfoldable pub join : PathBuf → List ℕ → PathBuf
join p name = record { absolute = p.absolute; parts = p.parts ++ name ∷ [] }

-- The text of the path.
unfoldable pub spelled : List (List ℕ) → List ℕ
spelled [] = []
spelled (a ∷ []) = a
spelled (a ∷ b ∷ rest) = a ++ b'/' ∷ spelled (b ∷ rest)

unfoldable pub to_text : PathBuf → List ℕ
unfolding spelled
to_text p = if p.absolute then b'/' ∷ spelled p.parts else spelled p.parts

-- `.typedb-mcp-stage-{pid}-{nanos}-{id}`
abbrev pub stage_prefix : List ℕ
stage_prefix = bytes ".typedb-mcp-stage-"

abbrev pub stage_suffix : ℕ → ℕ → ℕ → List ℕ
stage_suffix pid nanos id = decimal pid ++ b'-' ∷ (decimal nanos ++ b'-' ∷ decimal id)

unfoldable pub stage_name : ℕ → ℕ → ℕ → List ℕ
stage_name pid nanos id = stage_prefix ++ stage_suffix pid nanos id
