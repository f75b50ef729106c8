-- ===== src/Connection/Client.antt =====
-- How a client is made: `TypeDbClient::connect` and `connect_with_settings` of
-- crates/typedb-mcp-core/src/typedb.rs, `TypeDbCore::connect` of crates/typedb-mcp-core/src/core.rs, and
-- the start of `main` in crates/typedb-mcp/src/main.rs. `var` are the environment variables.
pub mod Paths
use typedb_mcp.Prelude.{ℕ, String, Bool, true, false, Option, some, none, List, if◌then◌else◌}
use typedb_mcp.Config.{
  TypeDbConfig, ConnectionSettings, SettingsError, SettingsResult, settings, refused, panicked,
  typedb_credentials, from_config,
}
use typedb_mcp.Connection.{
  Driver, Tried, fine, config, driver_error, ServerVersionInfo, server_version_info, connect,
  connect_migration,
}

pub record TypeDbClient (d : Driver) : Type 0 where
  pub driver : d.Connected
  pub startup_version : ServerVersionInfo

-- `connection::server_version_info` of the server's answer.
abbrev read_version :
    (d : Driver) → List ℕ → Tried (List ℕ) × d.World → Tried ServerVersionInfo × d.World
read_version d distribution (fine version, w) = (server_version_info distribution version, w)
read_version d distribution (config e, w) = (config e, w)
read_version d distribution (driver_error e, w) = (driver_error e, w)

abbrev to_client :
    (d : Driver)
    → d.Connected
    → Tried ServerVersionInfo × d.World
    → Tried (TypeDbClient d) × d.World
to_client d x (fine v, w) = (fine (record { driver = x; startup_version = v }), w)
to_client d x (config e, w) = (config e, w)
to_client d x (driver_error e, w) = (driver_error e, w)

-- From a driver to a client: the server is asked for its version.
abbrev with_version : (d : Driver) → Tried d.Connected × d.World → Tried (TypeDbClient d) × d.World
with_version d (fine x, w) =
    to_client d x (read_version d (d.distribution x w) (d.server_version x w))
with_version d (config e, w) = (config e, w)
with_version d (driver_error e, w) = (driver_error e, w)

abbrev at_address :
    (d : Driver)
    → Tried d.Addresses
    → Bool
    → String
    → String
    → d.World
    → Tried (TypeDbClient d) × d.World
at_address d (fine a) tls_enabled user password w = with_version d (
    d.connect a (if tls_enabled then d.tls_native_root_ca else d.tls_disabled) none none user
      password w)
at_address d (config e) tls_enabled user password w = (config e, w)
at_address d (driver_error e) tls_enabled user password w = (driver_error e, w)

-- `TypeDbClient::connect`
unfoldable pub client_connect :
    (d : Driver) → String → String → String → Bool → d.World → Tried (TypeDbClient d) × d.World
client_connect d address user password tls_enabled w =
    at_address d (d.try_from_address_str address) tls_enabled user password w

-- `TypeDbClient::connect_with_settings`
unfoldable pub connect_with_settings :
    (d : Driver) → ConnectionSettings → String → String → d.World → Tried (TypeDbClient d) × d.World
connect_with_settings d c user password w = with_version d (connect d c user password w)

-- What start-up comes to before the transports.
pub data Startup (d : Driver) : Type 0 where
  attempted : Tried (TypeDbClient d) × d.World → Startup d
  no_credentials : Startup d
  bad_settings : SettingsError → Startup d
  crashed : Startup d

abbrev core_with : (d : Driver) → String → Bool → d.World → Option (String × String) → Startup d
core_with d address tls_enabled w none = no_credentials
core_with d address tls_enabled w (some (user, password)) =
    attempted (client_connect d address user password tls_enabled w)

-- `TypeDbCore::connect`
unfoldable pub core_connect :
    (d : Driver) → (String → Option String) → TypeDbConfig → d.World → Startup d
core_connect d var c w =
    core_with d c.address c.tls_enabled w (typedb_credentials var c.credentials)

abbrev main_with :
    (d : Driver) → ConnectionSettings → d.World → Option (String × String) → Startup d
main_with d s w none = no_credentials
main_with d s w (some (user, password)) = attempted (connect_with_settings d s user password w)

abbrev main_settled :
    (d : Driver) → (String → Option String) → TypeDbConfig → d.World → SettingsResult → Startup d
main_settled d var c w (settings s) = main_with d s w (typedb_credentials var c.credentials)
main_settled d var c w (refused e) = bad_settings e
main_settled d var c w panicked = crashed

-- `main` up to its client.
unfoldable pub main_connect :
    (d : Driver) → (String → Option String) → TypeDbConfig → d.World → Startup d
main_connect d var c w = main_settled d var c w (from_config c)

-- The factory of the migration backend that `TypeDbCore::new` hands to the supervisor: it connects with
-- `connect_migration`.
pub data Factory (d : Driver) : Type 0 where
  made : Tried d.Connected × d.World → Factory d
  invalid_settings credentials_unavailable factory_panic : Factory d

abbrev factory_with :
    (d : Driver) → ConnectionSettings → d.World → Option (String × String) → Factory d
factory_with d s w none = credentials_unavailable
factory_with d s w (some (user, password)) = made (connect_migration d s user password w)

abbrev factory_settled :
    (d : Driver) → (String → Option String) → TypeDbConfig → d.World → SettingsResult → Factory d
factory_settled d var c w (settings s) = factory_with d s w (typedb_credentials var c.credentials)
factory_settled d var c w (refused e) = invalid_settings
factory_settled d var c w panicked = factory_panic

unfoldable pub backend_factory :
    (d : Driver) → (String → Option String) → TypeDbConfig → d.World → Factory d
backend_factory d var c w = factory_settled d var c w (from_config c)
