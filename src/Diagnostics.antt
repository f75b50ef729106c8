-- ===== src/Diagnostics.antt =====
-- crates/typedb-mcp-core/src/diagnostics.rs, and the flag that `do_server_info` of
-- crates/typedb-mcp-core/src/tools.rs hands to it. Times are nanoseconds. The clock and the driver's two
-- calls under a timeout are the argument `Probe`; the result comes with the calls that were made.
pub mod Exposure
use typedb_mcp.Prelude.{
  ℕ, ◌-◌, ◌/◌, String, Bool, true, false, ◌&&◌, ◌||◌, Option, none, some, List, [], ◌∷◌, map, leb,
  if◌then◌else◌,
}
use typedb_mcp.Kinds.{ExecutionContext, unspecified, stdio, http}
use typedb_mcp.Connection.{ServerVersionInfo}

-- `tokio::time::timeout` around a call.
pub data Timed (A : Type 0) : Type 0 where
  completed : A → Timed A
  failed : String → Timed A
  timed_out : Timed A

pub record Server : Type 0 where
  pub address : Option String
  pub id : ℕ
  pub role : Option String
  pub term : Option ℕ
  pub is_available : Bool

-- `elapsed n` is what the `n`-th look at the clock says of the time since the start.
pub record Probe : Type 0 where
  pub elapsed : ℕ → ℕ
  pub databases : ℕ → Timed (List String)
  pub servers : ℕ → Timed (List Server)

-- A call to the driver, with its timeout.
pub data Asked : Type 0 where
  databases servers : ℕ → Asked

pub record TopologyServer : Type 0 where
  pub address : Option String
  pub id : Option ℕ
  pub role : Option String
  pub term : Option ℕ
  pub available : Bool

pub data ConnectivityStatus : Type 0 where
  connected : ConnectivityStatus
  unavailable : String → ConnectivityStatus

pub record ConnectivityObservation : Type 0 where
  pub status : ConnectivityStatus
  pub elapsed_ms : ℕ
  pub read_only : Bool

pub data TopologyError : Type 0 where
  servers_failed : String → TopologyError
  topology_deadline : TopologyError

pub record DiagnosticReport : Type 0 where
  pub version : ServerVersionInfo
  pub connectivity : ConnectivityObservation
  pub topology : Option (List TopologyServer)
  pub topology_error : Option TopologyError

pub data Collected : Type 0 where
  report : DiagnosticReport → Collected
  deadline_exceeded : Collected

abbrev pub server_dto : Server → TopologyServer
server_dto s = record {
  address = s.address;
  id = some s.id;
  role = s.role;
  term = s.term;
  available = s.is_available;
}

abbrev pub topology_of : Timed (List Server) → Option (List TopologyServer) × Option TopologyError
topology_of (completed l) = (some (map server_dto l), none)
topology_of (failed e) = (none, some (servers_failed e))
topology_of timed_out = (none, some topology_deadline)

-- The end of `collect`, with the connection observed.
abbrev pub with_topology :
    Probe → ServerVersionInfo → ℕ → Bool → ConnectivityStatus → List Asked → Collected × List Asked
with_topology p version deadline false status asked = (
  report (record {
    version = version;
    connectivity = record {
      status = status;
      elapsed_ms = p.elapsed 2 / 1_000_000;
      read_only = true;
    };
    topology = none;
    topology_error = none;
  }),
  asked,
)
with_topology p version deadline true status asked =
    let remaining = deadline - p.elapsed 3 in
    let (topology, topology_error) = topology_of (p.servers remaining) in
    (
      report (record {
        version = version;
        connectivity = record {
          status = status;
          elapsed_ms = p.elapsed 2 / 1_000_000;
          read_only = true;
        };
        topology = topology;
        topology_error = topology_error;
      }),
      servers remaining ∷ asked,
    )

abbrev pub connectivity_then :
    Probe → ServerVersionInfo → ℕ → Bool → List Asked → Timed (List String) → Collected × List Asked
connectivity_then p version deadline expose asked (completed l) =
    with_topology p version deadline expose connected asked
connectivity_then p version deadline expose asked (failed e) =
    with_topology p version deadline expose (unavailable e) asked
connectivity_then p version deadline expose asked timed_out = (deadline_exceeded, asked)

unfoldable pub collect : Probe → ServerVersionInfo → ℕ → Bool → Collected × List Asked
collect p version deadline expose =
    let remaining = deadline - p.elapsed 1 in
    if leb deadline (p.elapsed 0)
    then (deadline_exceeded, [])
    else connectivity_then p version deadline expose (databases remaining ∷ [])
        (p.databases remaining)

-- `matches!(context, Stdio | Http)`
abbrev is_served : ExecutionContext → Bool
is_served unspecified = false
is_served stdio = true
is_served http = true

-- The last argument of the call in `do_server_info`.
unfoldable pub expose_topology : Bool → ExecutionContext → Bool
expose_topology expose_connection_details context = expose_connection_details && is_served context
