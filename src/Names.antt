-- ===== src/Names.antt =====
-- Database names: `valid_name` of crates/typedb-mcp-core/src/coordinator.rs, which guards the
-- reservations, and `validate_database_name` of crates/typedb-mcp-core/src/tools.rs, which guards the
-- two admin tools. A text is walked by its UTF-8 bytes, as `str::bytes` does.
pub mod Rules
use typedb_mcp.Prelude.{
  ℕ, String, Bool, true, false, not, ◌&&◌, ◌||◌, List, [], ◌∷◌, Option, none, some, leb, eqb,
  if◌then◌else◌, length, every, bytes, is_ascii_alphanumeric,
}

abbrev pub is_empty : List ℕ → Bool
is_empty [] = true
is_empty (b ∷ bs) = false

-- `b.is_ascii_alphanumeric() || b == b'_' || b == b'-'`
abbrev pub is_name_byte : ℕ → Bool
is_name_byte b = is_ascii_alphanumeric b || eqb b b'_' || eqb b b'-'

unfoldable pub valid_name : String → Bool
valid_name s = let bs = bytes s in not (is_empty bs) && leb (length bs) 128 && every is_name_byte bs

-- The two refusals of `validate_database_name`.
pub data NameError : Type 0 where
  empty_name bad_byte : NameError

-- `none` is `Ok(())`.
unfoldable pub validate_database_name : String → Option NameError
validate_database_name name =
    if is_empty (bytes name)
    then some empty_name
    else if not (every is_name_byte (bytes name))
    then some bad_byte
    else none
