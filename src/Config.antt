-- ===== src/Config.antt =====
-- crates/typedb-mcp-core/src/config.rs: the operator's configuration and the validated connection
-- settings. Numbers are u64 or usize fields of a TOML file that is parsed elsewhere; a `Duration` is its
-- nanoseconds. The environment variables are an argument of `typedb_credentials`.
pub mod Addresses
use Prim.Native.Nat.{min}
use mathlib.Core.Option
use typedb_mcp.Prelude.{
  ℕ, ◌+◌, ◌*◌, ◌<◌, String, Bool, true, false, not, ◌&&◌, ◌||◌, Option, none, some, List, [], ◌∷◌,
  ◌==◌, ltb, leb, eqb, if◌then◌else◌, every, codes,
}
use typedb_mcp.Kinds.{TxKind, read, write, schema}

pub record ServerConfig : Type 0 where
  pub idle_timeout_read_s : ℕ
  pub idle_timeout_write_s : ℕ
  pub idle_timeout_schema_s : ℕ
  pub session_ttl_s : ℕ
  pub result_cap : ℕ
  pub listen_stdio : Bool
  pub listen_http : Option String
  pub enable_database_admin_tools : Bool
  pub enable_database_migration_tools : Bool
  pub expose_connection_details : Bool
  pub migration_schema_size_cap_bytes : ℕ
  pub migration_min_free_bytes : ℕ
  pub migration_shutdown_grace_s : ℕ
  pub allowed_hosts : Option (List String)

pub data Credentials : Type 0 where
  env : String → String → Credentials
  inline : String → String → Credentials

pub record TypeDbConfig : Type 0 where
  pub address : String
  pub addresses : Option (List String)
  pub address_translation : Option (List (String × String))
  pub credentials : Credentials
  pub tls_enabled : Bool
  pub tls_root_ca_path : Option String
  pub request_timeout_s : Option ℕ
  pub primary_failover_retries : Option ℕ

pub record Config : Type 0 where
  pub server : ServerConfig
  pub typedb : TypeDbConfig

-- `Duration::from_secs`
abbrev pub from_secs : ℕ → ℕ
from_secs s = s * 1_000_000_000

unfoldable pub idle_timeout_for : Config → TxKind → ℕ
idle_timeout_for c read = from_secs c.server.idle_timeout_read_s
idle_timeout_for c write = from_secs c.server.idle_timeout_write_s
idle_timeout_for c schema = from_secs c.server.idle_timeout_schema_s

unfoldable pub min_idle_timeout : Config → ℕ
min_idle_timeout c = from_secs (
    min (min c.server.idle_timeout_read_s c.server.idle_timeout_write_s)
      c.server.idle_timeout_schema_s)

unfoldable pub session_ttl : Config → ℕ
session_ttl c = from_secs c.server.session_ttl_s

-- `none` is the error that an environment variable is not set.
unfoldable pub typedb_credentials :
    (String → Option String) → Credentials → Option (String × String)
typedb_credentials var (inline username password) = some (username, password)
typedb_credentials var (env username_var password_var) = elim (var username_var) [
  | none ↦ none
  | some user ↦ elim (var password_var) [ none ↦ none | some pass ↦ some (user, pass) ]
]

pub data AddressSpec : Type 0 where
  legacy : String → AddressSpec
  addresses : List String → AddressSpec
  translation : List (String × String) → AddressSpec

pub record ConnectionSettings : Type 0 where
  pub address : AddressSpec
  pub tls_enabled : Bool
  pub tls_root_ca_path : Option String
  pub request_timeout : Option ℕ
  pub primary_failover_retries : Option ℕ

pub data SettingsError : Type 0 where
  not_one_address_form ca_without_tls zero_timeout : SettingsError

-- `panicked` is the panic of `unwrap` on `None`.
pub data SettingsResult : Type 0 where
  settings : ConnectionSettings → SettingsResult
  refused : SettingsError → SettingsResult
  panicked : SettingsResult

-- The code points with the property White_Space, as `char::is_whitespace`.
abbrev pub is_whitespace : ℕ → Bool
is_whitespace c =
    (leb 9 c && leb c 13)
    || eqb c 32
    || eqb c 133
    || eqb c 160
    || eqb c 5760
    || (leb 8192 c && leb c 8202)
    || eqb c 8232
    || eqb c 8233
    || eqb c 8239
    || eqb c 8287
    || eqb c 12288

-- `s.trim().is_empty()`
unfoldable pub is_blank : String → Bool
is_blank s = every is_whitespace (codes s)

-- `o.as_ref().is_some_and(|v| !v.is_empty())`
abbrev pub is_some_nonempty {ℓ} : {A : Type ℓ} → Option (List A) → Bool
is_some_nonempty none = false
is_some_nonempty (some []) = false
is_some_nonempty (some (x ∷ xs)) = true

abbrev pub is_some {ℓ} : {A : Type ℓ} → Option A → Bool
is_some none = false
is_some (some x) = true

abbrev pub is_zero_timeout : Option ℕ → Bool
is_zero_timeout none = false
is_zero_timeout (some t) = eqb t 0

-- `[..].into_iter().filter(|x| *x).count()`
abbrev pub count_true : Bool → ℕ
count_true true = 1
count_true false = 0

-- The number of address forms that are present and not empty.
unfoldable pub present : TypeDbConfig → ℕ
present c =
    count_true (not (is_blank c.address))
    + count_true (is_some_nonempty c.addresses)
    + count_true (is_some_nonempty c.address_translation)

-- The chain of `then` and `or_else` that picks the form.
unfoldable pub pick_address : TypeDbConfig → Option AddressSpec
pick_address c = if not (is_blank c.address) then some (legacy c.address) else elim c.addresses [
  | some v ↦ some (addresses v)
  | none ↦ elim c.address_translation [ some m ↦ some (translation m) | none ↦ none ]
]

unfoldable pub from_config : TypeDbConfig → SettingsResult
from_config c =
    if not (eqb (present c) 1)
    then refused not_one_address_form
    else if is_some c.tls_root_ca_path && not c.tls_enabled
    then refused ca_without_tls
    else if is_zero_timeout c.request_timeout_s
    then refused zero_timeout
    else elim (pick_address c) [
      | none ↦ panicked
      | some spec ↦ settings (record {
        address = spec;
        tls_enabled = c.tls_enabled;
        tls_root_ca_path = c.tls_root_ca_path;
        request_timeout = Option.map from_secs c.request_timeout_s;
        primary_failover_retries = c.primary_failover_retries;
      })
    ]
