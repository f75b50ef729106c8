-- ===== src/Wire.antt =====
-- The process's dealings with what is not in the repository: the TypeDB server behind the
-- `typedb_driver` crate (wrapped by crates/typedb-mcp-core/src/typedb.rs), the clock and the UUIDs. Each
-- reply of the server is a function of all the calls made so far, the answered one first, so any
-- server is covered, also one that fails at will. A driver transaction is the number of the call that
-- opened it, with the database and the kind that it was opened with.
use typedb_mcp.Prelude.{ℕ, suc, String, List, ◌∷◌, length}
use typedb_mcp.Kinds.{TxKind}
use typedb_mcp.Errors.{DriverError}
use typedb_mcp.Config.{Config}
use typedb_mcp.Connection.{ServerVersionInfo}
use typedb_mcp.Diagnostics.{Probe}

pub record DriverTransaction : Type 0 where
  pub handle : ℕ
  pub database : String
  pub kind : TxKind

pub data Call : Type 0 where
  opens : String → TxKind → Call
  queries : DriverTransaction → String → Call
  commits : DriverTransaction → Call
  rolls_back : DriverTransaction → Call
  closes : DriverTransaction → Call
  lists_databases : Call
  gets_schema : String → Call
  creates_database : String → Call
  deletes_database : String → Call

pub data Reply (A : Type 0) : Type 0 where
  ok : A → Reply A
  err : DriverError → Reply A

-- `QueryAnswer`: the query type, and for a stream the items with the errors among them. An item is the
-- JSON that it is rendered to.
pub data QueryAnswer : Type 0 where
  done_answer : String → QueryAnswer
  concept_rows : String → List (Reply String) → QueryAnswer
  concept_documents : String → List (Reply String) → QueryAnswer

-- What the process is given. `display` is the driver error's `Display`, `uuid` the n-th UUID, `clock`
-- the n-th reading of `Instant::now`, in nanoseconds.
-- `startup_version` is the server's version as `TypeDbClient::connect` read it, and `probe` is what the clock and the driver
-- answer to a diagnosis that starts after so many readings.
pub record Env : Type 0 where
  pub config : Config
  pub on_open : List Call → Reply (Unit {0})
  pub on_query : List Call → Reply QueryAnswer
  pub on_commit : List Call → Reply (Unit {0})
  pub on_rollback : List Call → Reply (Unit {0})
  pub on_close : List Call → Reply (Unit {0})
  pub on_list : List Call → Reply (List String)
  pub on_schema : List Call → Reply String
  pub on_create : List Call → Reply (Unit {0})
  pub on_delete : List Call → Reply (Unit {0})
  pub display : DriverError → List ℕ
  pub uuid : ℕ → String
  pub startup_version : ServerVersionInfo
  pub probe : ℕ → Probe
  pub clock : ℕ → ℕ

-- The calls made so far, the last one first, and how many readings and UUIDs were taken.
pub record Wire : Type 0 where
  pub trace : List Call
  pub readings : ℕ
  pub minted : ℕ

-- `Instant::now()`
unfoldable pub now : Env → Wire → ℕ × Wire
now e w = (e.clock w.readings, record w { readings = suc w.readings })

-- `Uuid::new_v4().to_string()`
unfoldable pub new_uuid : Env → Wire → String × Wire
new_uuid e w = (e.uuid w.minted, record w { minted = suc w.minted })

abbrev pub made : Call → Wire → Wire
made c w = record w { trace = c ∷ w.trace }

abbrev pub with_handle : DriverTransaction → Reply (Unit {0}) → Reply DriverTransaction
with_handle t (ok _) = ok t
with_handle t (err x) = err x

-- `TypeDbClient::open_transaction`
unfoldable pub open_transaction : Env → String → TxKind → Wire → Reply DriverTransaction × Wire
open_transaction e database kind w =
    let c : Call = opens database kind in
    let t : DriverTransaction = record {
      handle = length w.trace;
      database = database;
      kind = kind;
    } in
    (with_handle t (e.on_open (c ∷ w.trace)), made c w)

-- `Transaction::query`, `commit`, `rollback` and `close`
unfoldable pub query : Env → DriverTransaction → String → Wire → Reply QueryAnswer × Wire
query e t text w = (e.on_query (queries t text ∷ w.trace), made (queries t text) w)

unfoldable pub commit : Env → DriverTransaction → Wire → Reply (Unit {0}) × Wire
commit e t w = (e.on_commit (commits t ∷ w.trace), made (commits t) w)

unfoldable pub rollback : Env → DriverTransaction → Wire → Reply (Unit {0}) × Wire
rollback e t w = (e.on_rollback (rolls_back t ∷ w.trace), made (rolls_back t) w)

unfoldable pub close : Env → DriverTransaction → Wire → Reply (Unit {0}) × Wire
close e t w = (e.on_close (closes t ∷ w.trace), made (closes t) w)

-- `TypeDbClient::list_databases`, `get_schema`, `create_database` and `delete_database`
unfoldable pub list_databases : Env → Wire → Reply (List String) × Wire
list_databases e w = (e.on_list (lists_databases ∷ w.trace), made lists_databases w)

unfoldable pub get_schema : Env → String → Wire → Reply String × Wire
get_schema e name w = (e.on_schema (gets_schema name ∷ w.trace), made (gets_schema name) w)

unfoldable pub create_database : Env → String → Wire → Reply (Unit {0}) × Wire
create_database e name w =
    (e.on_create (creates_database name ∷ w.trace), made (creates_database name) w)

unfoldable pub delete_database : Env → String → Wire → Reply (Unit {0}) × Wire
delete_database e name w =
    (e.on_delete (deletes_database name ∷ w.trace), made (deletes_database name) w)
