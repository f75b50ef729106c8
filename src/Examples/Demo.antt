-- ===== src/Examples/Demo.antt =====
-- A configuration, a server that accepts everything, and the states that the examples start from.
use typedb_mcp.Prelude.{zero, suc, true, false, none, some, [], ◌∷◌, if◌then◌else◌, ◌==◌, bytes}
use typedb_mcp.Kinds.{schema}
use typedb_mcp.Config.{Config, TypeDbConfig, inline}
use typedb_mcp.Connection.{verified}
use typedb_mcp.Diagnostics.{completed}
use typedb_mcp.Coordinator
use typedb_mcp.Wire.{Env, Wire, ok, concept_rows}
use typedb_mcp.Session.{SessionState, OpenTx}
use typedb_mcp.Session.Store.{World}

abbrev pub demo_typedb : TypeDbConfig
demo_typedb = record {
  address = "localhost:1729";
  addresses = none;
  address_translation = none;
  credentials = inline "admin" "password";
  tls_enabled = false;
  tls_root_ca_path = none;
  request_timeout_s = some 30;
  primary_failover_retries = none;
}

abbrev pub demo_config : Config
demo_config = record {
  server = record {
    idle_timeout_read_s = 300;
    idle_timeout_write_s = 60;
    idle_timeout_schema_s = 60;
    session_ttl_s = 1_800;
    result_cap = 1_000;
    listen_stdio = true;
    listen_http = none;
    enable_database_admin_tools = true;
    enable_database_migration_tools = false;
    expose_connection_details = false;
    migration_schema_size_cap_bytes = 16_777_216;
    migration_min_free_bytes = 0;
    migration_shutdown_grace_s = 30;
    allowed_hosts = none;
  };
  typedb = demo_typedb;
}

-- One reading of the clock per nanosecond, and two UUIDs.
abbrev pub demo_env : Env
demo_env = record {
  config = demo_config;
  on_open = λ calls. ok tt;
  on_query = λ calls. ok (concept_rows "read" (ok "row" ∷ []));
  on_commit = λ calls. ok tt;
  on_rollback = λ calls. ok tt;
  on_close = λ calls. ok tt;
  on_list = λ calls. ok ("shop" ∷ []);
  on_schema = λ calls. ok "define";
  on_create = λ calls. ok tt;
  on_delete = λ calls. ok tt;
  display = λ error. [];
  uuid = λ n. elim n [ zero ↦ "aaaaaaaa-0000" | suc _ ↦ "bbbbbbbb-0000" ];
  startup_version = record {
    distribution = bytes "TypeDB CE";
    version = bytes "3.12.0";
    status = verified;
  };
  probe = λ n. record {
    elapsed = λ k. k;
    databases = λ t. completed ("shop" ∷ []);
    servers = λ t. completed [];
  };
  clock = λ n. n;
}

-- A SCHEMA transaction on `shop`.
abbrev pub demo_tx : OpenTx
demo_tx = record {
  id = "tx_cccccccc";
  database = "shop";
  kind = schema;
  transaction = record { handle = 0; database = "shop"; kind = schema };
  last_activity = 5;
}

abbrev pub idle_state : SessionState
idle_state = record { schema_seen = "shop" ∷ []; tx = none; expires_at = 100 }

abbrev pub busy_state : SessionState
busy_state = record { schema_seen = "shop" ∷ []; tx = some demo_tx; expires_at = 100 }

abbrev pub demo_wire : Wire
demo_wire = record { trace = []; readings = 7; minted = 0 }

-- Two sessions, `a` with a transaction and `b` without.
abbrev pub two_sessions : World
two_sessions = record {
  arcs = λ id. if id == "a" then busy_state else idle_state;
  ids = "a" ∷ "b" ∷ [];
  held = [];
  store_held = false;
  coordinator = Coordinator.new;
  wire = demo_wire;
}

-- The clock stands past every deadline.
abbrev pub late : World
late = record two_sessions { wire = record demo_wire { readings = 200 } }

-- A migration job holds the lock of `a`.
abbrev pub migrating : World
migrating = record two_sessions { held = "a" ∷ [] }
