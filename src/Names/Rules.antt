-- ===== src/Names/Rules.antt =====
-- How the two name checks compare.
use typedb_mcp.Prelude.{◌≤◌, ◌≡◌, ◌↔◌, String, true, none, arith, length, bytes}
use typedb_mcp.Names.{valid_name, validate_database_name}

-- A name can be reserved exactly when the check of the admin tools accepts it and it has at most
-- 128 bytes.
pub valid_name_iff :
    (s : String)
    → (valid_name s ≡ true) ↔ ((validate_database_name s ≡ none) × (length (bytes s) ≤ 128))
unfolding valid_name validate_database_name
valid_name_iff s = ground arith
