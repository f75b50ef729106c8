-- ===== src/Diagnostics/Exposure.antt =====
-- What a diagnostic report gives away, and how long it may take.
use typedb_mcp.Prelude.{
  ℕ, ◌-◌, ◌≡◌, ◌≤◌, refl, String, Bool, true, false, Option, none, some, List, [], ◌∷◌, All, leb,
  arith, if◌then◌else◌,
}
use typedb_mcp.Connection.{ServerVersionInfo}
use typedb_mcp.Diagnostics.{
  Timed, completed, failed, timed_out, Probe, Asked, databases, servers, topology_of, Collected,
  report, deadline_exceeded, with_topology, connectivity_then, collect, Server, ConnectivityStatus,
}

-- No call may take longer than the deadline.
abbrev pub IsBounded : ℕ → Asked → Type 0
IsBounded deadline (databases t) = t ≤ deadline
IsBounded deadline (servers t) = t ≤ deadline

abbrev pub IsDatabases : Asked → Type 0
IsDatabases (databases t) = Unit {0}
IsDatabases (servers t) = ⊥

-- Exactly one of the two is there.
abbrev pub OneOf : {A B : Type 0} → Option A → Option B → Type 0
OneOf (some a) none = Unit {0}
OneOf none (some b) = Unit {0}
OneOf (some a) (some b) = ⊥
OneOf none none = ⊥

-- A report tells of the servers exactly if it may.
abbrev pub Exposes : Bool → Collected → List Asked → Type 0
Exposes expose deadline_exceeded asked = Unit {0}
Exposes true (report r) asked = OneOf r.topology r.topology_error
Exposes false (report r) asked = (r.topology ≡ none) × (r.topology_error ≡ none)

abbrev pub Discreet : Bool → List Asked → Type 0
Discreet true asked = Unit {0}
Discreet false asked = All IsDatabases asked

abbrev pub Told : ℕ → Bool → Collected × List Asked → Type 0
Told deadline expose (c, asked) =
    Exposes expose c asked × Discreet expose asked × All (IsBounded deadline) asked

OneOf-topology_of : (r : Timed (List Server)) → OneOf (topology_of r).0 (topology_of r).1
OneOf-topology_of (completed l) = tt
OneOf-topology_of (failed e) = tt
OneOf-topology_of timed_out = tt

module _ (p : Probe) (version : ServerVersionInfo) (deadline : ℕ) where
  with_topology-Told :
      (expose : Bool) (status : ConnectivityStatus) (t : ℕ)
      → t ≤ deadline
      → Told deadline expose (with_topology p version deadline expose status (databases t ∷ []))
  with_topology-Told true status t h =
      (OneOf-topology_of (p.servers (deadline - p.elapsed 3)), tt, (omega arith, (h, tt)))
  with_topology-Told false status t h = ((refl, refl), (tt, tt), (h, tt))

  connectivity_then-Told :
      (expose : Bool) (r : Timed (List String)) (t : ℕ)
      → t ≤ deadline
      → Told deadline expose (connectivity_then p version deadline expose (databases t ∷ []) r)
  connectivity_then-Told expose (completed l) t h = with_topology-Told expose _ t h
  connectivity_then-Told expose (failed e) t h = with_topology-Told expose _ t h
  connectivity_then-Told true timed_out t h = (tt, tt, (h, tt))
  connectivity_then-Told false timed_out t h = (tt, (tt, tt), (h, tt))

  started-Told :
      (expose late : Bool) (x : Collected × List Asked)
      → Told deadline expose x
      → Told deadline expose (if late then (deadline_exceeded, []) else x)
  started-Told true true x h = (tt, tt, tt)
  started-Told false true x h = (tt, tt, tt)
  started-Told expose false x h = h

-- Where the topology may not be shown, the report has neither the servers nor an error about them, and
-- the driver is not asked for them; where it may, the report has exactly one of the two. No call to the
-- driver is given more time than the deadline.
pub collect-Told :
    (p : Probe) (version : ServerVersionInfo) (deadline : ℕ) (expose : Bool)
    → Told deadline expose (collect p version deadline expose)
unfolding collect
collect-Told p version deadline expose =
    started-Told p version deadline expose (leb deadline (p.elapsed 0)) _ (
      connectivity_then-Told p version deadline expose (p.databases (deadline - p.elapsed 1))
        (deadline - p.elapsed 1) (omega arith))
