-- ===== src/Connection/Connecting.antt =====
-- What is known of a driver that `connect` or `connect_migration` hands on.
use typedb_mcp.Prelude.{ℕ, ◌≡◌, refl, sym, ap, ◌∙◌, String, Option, some, List}
use typedb_mcp.Config.{ConnectionSettings}
use typedb_mcp.Connection.{
  VersionStatus, VersionCheck, VersionError, accepted, rejected, validate_server_version, Tried,
  fine, config, driver_error, ◌>>=◌, checked, Driver, addresses_of, tls_of, driver_build_settings,
  admit, admit_new, connect_built, connect_migration,
}

-- The driver came from the library with the given retries, and its server's version was accepted.
pub record Handed (d : Driver) (c : ConnectionSettings) (retries : Option ℕ)
    (user password : String) (w : d.World) (x : d.Connected) : Type 0 where
  pub addresses : d.Addresses
  pub tls : d.Tls
  pub connected : (d.connect addresses tls c.request_timeout retries user password w).0 ≡ fine x
  pub version : List ℕ
  pub told :
      (d.server_version x (d.connect addresses tls c.request_timeout retries user password w).1).0
      ≡ fine version
  pub status : VersionStatus
  pub version_accepted : validate_server_version version ≡ accepted status

config_ne_fine : {A : Type 0} (e : VersionError) (x : A) → config e ≡ fine x → ⊥
config_ne_fine e x h = cc

error_ne_fine : {A : Type 0} (e : String) (x : A) → driver_error e ≡ fine x → ⊥
error_ne_fine e x h = cc

fine_inj : {A : Type 0} (a x : A) → fine a ≡ fine x → a ≡ x
fine_inj a x h = cc

accepted_by :
    (v : VersionCheck) {A : Type 0} (a x : A)
    → (checked v >>= λ status. fine a) ≡ fine x
    → (st : VersionStatus) × (v ≡ accepted st) × (a ≡ x)
accepted_by (accepted st) a x h = (st, refl, fine_inj a x h)
accepted_by (rejected e) a x h = absurd (config_ne_fine e x h)

admit-fine :
    {A W : Type 0} (a x : A) (r : Tried (List ℕ) × W)
    → (admit a r).0 ≡ fine x
    → (v : List ℕ) × (r.0 ≡ fine v)
      × ((st : VersionStatus) × (validate_server_version v ≡ accepted st) × (a ≡ x))
admit-fine a x (fine v, w) h = (v, refl, accepted_by (validate_server_version v) a x h)
admit-fine a x (config e, w) h = absurd (config_ne_fine e x h)
admit-fine a x (driver_error e, w) h = absurd (error_ne_fine e x h)

module _ (d : Driver) (c : ConnectionSettings) (retries : Option ℕ) (user password : String)
    (w : d.World) (x : d.Connected) where
  admit_new-Handed :
      (a : d.Addresses) (t : d.Tls) (r : Tried d.Connected × d.World)
      → d.connect a t c.request_timeout retries user password w ≡ r
      → (admit_new d r).0 ≡ fine x
      → Handed d c retries user password w x
  admit_new-Handed a t (fine y, v) e h =
      let (version, told, (st, ok, same)) = admit-fine y x (d.server_version y v) h in
      record {
        addresses = a;
        tls = t;
        connected = ap (λ r. r.0) e ∙ ap (λ z. fine z) same;
        version = version;
        told =
            ap (λ r. (d.server_version x r.1).0) e
            ∙ ap (λ z. (d.server_version z v).0) (sym same)
            ∙ told;
        status = st;
        version_accepted = ok;
      }
  admit_new-Handed a t (config e', v) e h = absurd (config_ne_fine e' x h)
  admit_new-Handed a t (driver_error e', v) e h = absurd (error_ne_fine e' x h)

  build-Handed :
      (ta : Tried d.Addresses) (ts : Tried d.Tls)
      → (connect_built d
          (ta >>= λ a. ts >>= λ t. fine (record {
            addresses = a;
            tls = t;
            request_timeout = c.request_timeout;
            primary_failover_retries = retries;
          }))
          user
          password
          w).0
        ≡ fine x
      → Handed d c retries user password w x
  build-Handed (fine a) (fine t) h = admit_new-Handed a t _ refl h
  build-Handed (fine a) (config e) h = absurd (config_ne_fine e x h)
  build-Handed (fine a) (driver_error e) h = absurd (error_ne_fine e x h)
  build-Handed (config e) t h = absurd (config_ne_fine e x h)
  build-Handed (driver_error e) t h = absurd (error_ne_fine e x h)

-- A driver that `connect_migration` hands on was connected with no failover retries, whatever the
-- operator configured, and with the configured timeout, and its server reported a version that the check
-- accepts.
pub connect_migration-Handed :
    (d : Driver) (c : ConnectionSettings) (user password : String) (w : d.World) (x : d.Connected)
    → (connect_migration d c user password w).0 ≡ fine x
    → Handed d c (some 0) user password w x
unfolding connect_migration driver_build_settings
connect_migration-Handed d c user password w x h =
    build-Handed d c (some 0) user password w x (addresses_of d c.address)
      (tls_of d c.tls_enabled c.tls_root_ca_path) h
