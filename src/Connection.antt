-- ===== src/Connection.antt =====
-- crates/typedb-mcp-core/src/connection.rs: the settings of a driver, its connection, and the check of the
-- server's version. The driver library is the argument `Driver`; its world is what its calls change.
pub mod Versions
pub mod Connecting
pub mod Client
use typedb_mcp.Prelude.{
  ℕ, ◌+◌, ◌*◌, ◌-◌, ◌^◌, String, Bool, true, false, not, ◌&&◌, ◌||◌, Option, none, some, List, [],
  ◌∷◌, ltb, eqb, bytes, if◌then◌else◌, is_ascii_digit,
}
use typedb_mcp.Config.{AddressSpec, legacy, addresses, translation, ConnectionSettings}

pub data VersionStatus : Type 0 where
  verified unverified : VersionStatus

-- The two texts of `InternalError::Config`, each with the version in it.
pub data VersionError : Type 0 where
  not_stable unsupported : VersionError

pub data VersionCheck : Type 0 where
  accepted : VersionStatus → VersionCheck
  rejected : VersionError → VersionCheck

-- `split(p)`: the first piece, and what follows the first separator.
unfoldable pub piece : (ℕ → Bool) → List ℕ → List ℕ
piece p [] = []
piece p (b ∷ bs) = let rest = piece p bs in if p b then [] else b ∷ rest

unfoldable pub after : (ℕ → Bool) → List ℕ → Option (List ℕ)
after p [] = none
after p (b ∷ bs) = let rest = after p bs in if p b then some bs else rest

abbrev pub is_suffix_mark : ℕ → Bool
is_suffix_mark b = eqb b b'-' || eqb b b'+'

abbrev pub is_dot : ℕ → Bool
is_dot b = eqb b b'.'

abbrev pub is_minus : ℕ → Bool
is_minus b = eqb b b'-'

-- `contains('-')`
unfoldable pub has_byte : (ℕ → Bool) → List ℕ → Bool
has_byte p [] = false
has_byte p (b ∷ bs) = p b || has_byte p bs

-- `parse::<u64>`: digits, with checked arithmetic, after an optional sign.
unfoldable pub parse_from : ℕ → List ℕ → Option ℕ
parse_from acc [] = some acc
parse_from acc (b ∷ bs) =
    let n = acc * 10 + (b - b'0') in
    let rest = parse_from n bs in if is_ascii_digit b && ltb n (2 ^ 64) then rest else none

abbrev pub parse_digits : List ℕ → Option ℕ
parse_digits [] = none
parse_digits (b ∷ bs) = parse_from 0 (b ∷ bs)

unfoldable pub parse_u64 : List ℕ → Option ℕ
parse_u64 [] = none
parse_u64 (b ∷ bs) = if eqb b b'+' then parse_digits bs else parse_from 0 (b ∷ bs)

abbrev pub parse_piece : Option (List ℕ) → Option ℕ
parse_piece none = none
parse_piece (some bs) = parse_u64 (piece is_dot bs)

-- The order of pairs, and the status of an accepted version.
abbrev pub policy : ℕ → ℕ → VersionCheck
policy major minor =
    if ltb major 3 || (eqb major 3 && ltb minor 12)
    then rejected unsupported
    else if eqb major 3 && eqb minor 12
    then accepted verified
    else accepted unverified

abbrev pub judged : Option ℕ → Option ℕ → VersionCheck
judged none minor = rejected not_stable
judged (some major) none = rejected not_stable
judged (some major) (some minor) = policy major minor

unfoldable pub validate_server_version : List ℕ → VersionCheck
validate_server_version version =
    let core = piece is_suffix_mark version in
    if has_byte is_minus version
    then rejected not_stable
    else judged (parse_piece (some core)) (parse_piece (after is_dot core))

pub record ServerVersionInfo : Type 0 where
  pub distribution : List ℕ
  pub version : List ℕ
  pub status : VersionStatus

pub data Tried (A : Type 0) : Type 0 where
  fine : A → Tried A
  config : VersionError → Tried A
  driver_error : String → Tried A

infixl 5 ◌>>=◌
abbrev pub ◌>>=◌ : {A B : Type 0} → Tried A → (A → Tried B) → Tried B
fine a >>= f = f a
config e >>= f = config e
driver_error e >>= f = driver_error e

abbrev checked : VersionCheck → Tried VersionStatus
checked (accepted v) = fine v
checked (rejected e) = config e

unfoldable pub server_version_info : List ℕ → List ℕ → Tried ServerVersionInfo
server_version_info distribution version = do
  status ← checked (validate_server_version version)
  fine (record { distribution = distribution; version = version; status = status })

-- What the code calls of the driver library. `server_version` is the version of the answer and
-- `distribution` the distribution of the same answer. The options are the driver's own defaults where none.
pub record Driver : Type 1 where
  pub Addresses : Type 0
  pub Tls : Type 0
  pub Connected : Type 0
  pub World : Type 0
  pub try_from_address_str : String → Tried Addresses
  pub try_from_addresses_str : List String → Tried Addresses
  pub try_from_translation_str : List (String × String) → Tried Addresses
  pub tls_disabled : Tls
  pub tls_native_root_ca : Tls
  pub tls_root_ca : String → Tried Tls
  pub connect :
      Addresses → Tls → Option ℕ → Option ℕ → String → String → World → Tried Connected × World
  pub server_version : Connected → World → Tried (List ℕ) × World
  pub distribution : Connected → World → List ℕ

pub record DriverBuildSettings (d : Driver) : Type 0 where
  pub addresses : d.Addresses
  pub tls : d.Tls
  pub request_timeout : Option ℕ
  pub primary_failover_retries : Option ℕ

abbrev addresses_of : (d : Driver) → AddressSpec → Tried d.Addresses
addresses_of d (legacy a) = d.try_from_address_str a
addresses_of d (addresses l) = d.try_from_addresses_str l
addresses_of d (translation m) = d.try_from_translation_str m

abbrev pub tls_of : (d : Driver) → Bool → Option String → Tried d.Tls
tls_of d false ca = fine d.tls_disabled
tls_of d true none = fine d.tls_native_root_ca
tls_of d true (some p) = d.tls_root_ca p

-- `Option::or`
abbrev pub or_else : Option ℕ → Option ℕ → Option ℕ
or_else none b = b
or_else (some a) b = some a

unfoldable pub driver_build_settings :
    (d : Driver) → ConnectionSettings → Option ℕ → Tried (DriverBuildSettings d)
driver_build_settings d c retries_override = do
  a ← addresses_of d c.address
  t ← tls_of d c.tls_enabled c.tls_root_ca_path
  fine (record {
    addresses = a;
    tls = t;
    request_timeout = c.request_timeout;
    primary_failover_retries = or_else retries_override c.primary_failover_retries;
  })

abbrev pub migration_driver_build_settings :
    (d : Driver) → ConnectionSettings → Tried (DriverBuildSettings d)
migration_driver_build_settings d c = driver_build_settings d c (some 0)

-- The version of the server decides whether the driver is handed on.
abbrev pub admit : {A W : Type 0} → A → Tried (List ℕ) × W → Tried A × W
admit a (r, w) =
    (r >>= λ version. (checked (validate_server_version version) >>= λ status. fine a), w)

abbrev pub admit_new : (d : Driver) → Tried d.Connected × d.World → Tried d.Connected × d.World
admit_new d (fine c, w) = admit c (d.server_version c w)
admit_new d (config e, w) = (config e, w)
admit_new d (driver_error e, w) = (driver_error e, w)

abbrev pub connect_built :
    (d : Driver)
    → Tried (DriverBuildSettings d)
    → String
    → String
    → d.World
    → Tried d.Connected × d.World
connect_built d (fine b) user password w =
    admit_new d
      (d.connect b.addresses b.tls b.request_timeout b.primary_failover_retries user password w)
connect_built d (config e) user password w = (config e, w)
connect_built d (driver_error e) user password w = (driver_error e, w)

unfoldable pub connect :
    (d : Driver) → ConnectionSettings → String → String → d.World → Tried d.Connected × d.World
connect d c user password w = connect_built d (driver_build_settings d c none) user password w

unfoldable pub connect_migration :
    (d : Driver) → ConnectionSettings → String → String → d.World → Tried d.Connected × d.World
connect_migration d c user password w =
    connect_built d (migration_driver_build_settings d c) user password w
