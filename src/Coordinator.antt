-- ===== src/Coordinator.antt =====
-- crates/typedb-mcp-core/src/coordinator.rs: the names that a destructive operation has reserved. The
-- set stands behind a mutex that is held for one set operation at a time and never poisoned, so its
-- state is the set itself. A `NameReservation` is the name; `release` is its `Drop`.
pub mod Exclusive
use typedb_mcp.Prelude.{String, Bool, List, [], ◌∷◌, not, if◌then◌else◌, has, add, discard}
use typedb_mcp.Names.{valid_name}

pub data ReservationError : Type 0 where
  busy : String → ReservationError
  invalid_name : ReservationError

pub record OperationCoordinator : Type 0 where
  pub names : List String

pub data Reserved : Type 0 where
  reserved : String → OperationCoordinator → Reserved
  refused : ReservationError → Reserved

unfoldable pub new : OperationCoordinator
new = record { names = [] }

unfoldable pub try_reserve : OperationCoordinator → String → Reserved
try_reserve c name =
    if not (valid_name name)
    then refused invalid_name
    else if has name c.names
    then refused (busy name)
    else reserved name (record { names = add name c.names })

-- `impl Drop for NameReservation`
unfoldable pub release : OperationCoordinator → String → OperationCoordinator
release c name = record { names = discard name c.names }

unfoldable pub is_reserved : OperationCoordinator → String → Bool
is_reserved c name = has name c.names
