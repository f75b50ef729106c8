-- ===== src/Errors.antt =====
-- crates/typedb-mcp-core/src/error.rs: the agent-facing error classes, the classifier of TypeDB's
-- error stacks, and the crate's own errors. A message is its bytes: the classifier looks for bracketed
-- codes in it. The driver's error type is not under the repository; of it the source uses which of four
-- shapes it has, `code()` and `message()`.
pub mod Lifecycle
use typedb_mcp.Prelude.{
  ℕ, String, Bool, true, false, ◌||◌, List, ◌==◌, if◌then◌else◌, bytes, contains,
}

pub data ErrorClass : Type 0 where
  session_unknown session_expired schema_not_read tx_already_open : ErrorClass
  confirmation_required no_tx_open tx_is_read wrong_tx_type parse_error type_error : ErrorClass
  query_failed write_failed commit_failed result_limit_exceeded timeout : ErrorClass
  unknown_database idle_timeout transient_conflict upstream_unavailable unclassified : ErrorClass

unfoldable pub retriable_in_same_tx : ErrorClass → Bool
retriable_in_same_tx wrong_tx_type = true
retriable_in_same_tx parse_error = true
retriable_in_same_tx type_error = true
retriable_in_same_tx result_limit_exceeded = true
retriable_in_same_tx tx_is_read = true
retriable_in_same_tx tx_already_open = true
retriable_in_same_tx _ = false

-- `message.contains(code)`
unfoldable pub mentions : List ℕ → String → Bool
mentions message code = contains message (bytes code)

-- The last step of the classifier, by the top code alone.
unfoldable pub classify_top_code : String → ErrorClass
classify_top_code top_code =
    if top_code == "TXN1" || top_code == "TXN2"
    then timeout
    else if top_code == "SRV3"
    then unknown_database
    else if top_code == "AUT2" || top_code == "HSR9"
    then upstream_unavailable
    else unclassified

unfoldable pub classify_typedb_error : String → List ℕ → ErrorClass
classify_typedb_error top_code message =
    if mentions message "[WEX1]" || mentions message "[PEX6]" || mentions message "[QEX14]"
    then write_failed
    else if mentions message "[DCT3]"
        || mentions message "[TSV5]"
        || mentions message "[HSR18]"
        || mentions message "[SRV19]"
    then commit_failed
    else if mentions message "[TSV12]"
    then idle_timeout
    else if mentions message "[TSV13]"
    then transient_conflict
    else if mentions message "[TSV9]" || mentions message "[TSV8]"
    then wrong_tx_type
    else if mentions message "[TSV2]"
    then tx_is_read
    else if mentions message "[TSV7]"
    then parse_error
    else if mentions message "[TSV10]" || mentions message "[QEX3]" || mentions message "[REX24]"
    then write_failed
    else if mentions message "[REP27]"
        || mentions message "[REP44]"
        || mentions message "[FER7]"
        || mentions message "[REP23]"
        || mentions message "[QEX7]"
    then query_failed
    else if mentions message "[TQL"
    then parse_error
    else if mentions message "[INF" || mentions message "[QUA"
    then type_error
    else if mentions message "[CNT" || mentions message "[DVL"
    then write_failed
    else classify_top_code top_code

-- `typedb_driver::Error`, as far as `classify_driver_error` tells its cases apart.
pub data DriverError : Type 0 where
  transaction_is_closed : DriverError
  transaction_is_closed_with_errors : DriverError
  other_connection : DriverError
  server : String → List ℕ → DriverError
  other : DriverError

pub data InternalError : Type 0 where
  driver : DriverError → InternalError
  config : String → InternalError

unfoldable pub classify_driver_error : DriverError → ErrorClass
classify_driver_error transaction_is_closed = idle_timeout
classify_driver_error transaction_is_closed_with_errors = idle_timeout
classify_driver_error other_connection = upstream_unavailable
classify_driver_error (server code message) = classify_typedb_error code message
classify_driver_error other = upstream_unavailable

unfoldable pub to_class : InternalError → ErrorClass
to_class (driver e) = classify_driver_error e
to_class (config _) = upstream_unavailable
