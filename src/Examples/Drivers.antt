-- ===== src/Examples/Drivers.antt =====
-- The check of versions, a driver library of one server, and a typemap of two types.
use typedb_mcp.Prelude.{
  ℕ, suc, ◌≡◌, ◌↔◌, ◌≤◌, true, ◌*◌, refl, String, false, none, some, [], ◌∷◌, ◌++◌, decimal, bytes,
  arith,
}
use typedb_mcp.Config.{ConnectionSettings, legacy}
use typedb_mcp.Connection.{
  Driver, validate_server_version, fine, connect_migration, driver_build_settings, piece, after,
  has_byte, parse_from, parse_u64,
}
use typedb_mcp.Connection.Versions.{IsJudged, validate_server_version-policy}
use typedb_mcp.Connection.Connecting.{Handed, connect_migration-Handed}
use typedb_mcp.Migration.Paths.{PathBuf}
use typedb_mcp.Migration.Disk.{returned}
use typedb_mcp.Migration.Checks.{ensure_free_space, available}
use typedb_mcp.Migration.Checks.Headroom.{ensure_free_space-available}

validate_server_version-policy_example :
    IsJudged 3 12 (validate_server_version (decimal 3 ++ b'.' ∷ (decimal 12 ++ bytes ".0")))
unfolding has_byte
validate_server_version-policy_example =
    validate_server_version-policy 3 12 (bytes ".0") (omega arith) (omega arith) refl refl

-- A connection is the number of the call that made it.
abbrev pub one_server : Driver
one_server = record {
  Addresses = String;
  Tls = String;
  Connected = ℕ;
  World = ℕ;
  try_from_address_str = λ a. fine a;
  try_from_addresses_str = λ l. fine "many";
  try_from_translation_str = λ m. fine "translated";
  tls_disabled = "off";
  tls_native_root_ca = "native";
  tls_root_ca = λ p. fine p;
  connect = λ a t timeout retries user password w. (fine w, suc w);
  server_version = λ c w. (fine (bytes "3.12.0"), w);
  distribution = λ c w. bytes "TypeDB CE";
}

abbrev local_settings : ConnectionSettings
local_settings = record {
  address = legacy "127.0.0.1:1729";
  tls_enabled = false;
  tls_root_ca_path = none;
  request_timeout = some 2;
  primary_failover_retries = some 4;
}

connects : (connect_migration one_server local_settings "admin" "password" 7).0 ≡ fine 7
unfolding connect_migration driver_build_settings validate_server_version piece after has_byte
    parse_from parse_u64
connects = refl

connect_migration-Handed_example : Handed one_server local_settings (some 0) "admin" "password" 7 7
connect_migration-Handed_example =
    connect_migration-Handed one_server local_settings "admin" "password" 7 7 connects

abbrev home : PathBuf
home = record { absolute = true; parts = [] }

ensure_free_space-available_example :
    (ensure_free_space home (available (some (4096, 1000))) 1000 ≡ returned tt)
    ↔ (1000 ≤ 4096 * 1000)
ensure_free_space-available_example = ensure_free_space-available home 4096 1000 1000 (omega arith)
