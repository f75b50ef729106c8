-- ===== src/Envelope/NextMoves/Phrases.antt =====
-- What the lines of an error say of the session's transaction.
use typedb_mcp.Prelude.{
  ◌≡◌, refl, String, Bool, true, false, not, ◌&&◌, ◌||◌, none, List, [], ◌∷◌, bytes, contains,
}
use typedb_mcp.Errors.{
  ErrorClass, session_unknown, session_expired, schema_not_read, tx_already_open,
  confirmation_required, no_tx_open, tx_is_read, wrong_tx_type, parse_error, type_error,
  query_failed, write_failed, commit_failed, result_limit_exceeded, timeout, unknown_database,
  idle_timeout, transient_conflict, upstream_unavailable, unclassified, retriable_in_same_tx,
}
use typedb_mcp.Envelope.NextMoves.Sessions.{on_session_unknown, on_session_expired}
use typedb_mcp.Envelope.NextMoves.Failures.{on_error, on_upstream_unavailable, explain_query_error}

-- One of the lines has the phrase.
abbrev pub says : List String → String → Bool
says [] phrase = false
says (line ∷ ls) phrase = contains (bytes line) (bytes phrase) || says ls phrase

abbrev pub any_said : List String → List String → Bool
any_said ls [] = false
any_said ls (phrase ∷ ps) = says ls phrase || any_said ls ps

-- The phrases of the catalogue for a transaction that is there, and for one that is not.
abbrev pub open_phrases : List String
open_phrases = "ransaction is still open" ∷ "transaction is already open" ∷ []

-- The class whose lines are silent on the open transaction.
abbrev pub is_silent : ErrorClass → Bool
is_silent tx_is_read = true
is_silent _ = false

-- For every other class the lines of the error say that the transaction is open exactly if
-- `retriable_in_same_tx` does.
pub any_said-on_error :
    (class : ErrorClass)
    → any_said (on_error class none) open_phrases
      ≡ (retriable_in_same_tx class && not (is_silent class))
unfolding on_error explain_query_error on_session_unknown on_session_expired on_upstream_unavailable
    retriable_in_same_tx contains
any_said-on_error session_unknown = refl
any_said-on_error session_expired = refl
any_said-on_error schema_not_read = refl
any_said-on_error tx_already_open = refl
any_said-on_error confirmation_required = refl
any_said-on_error no_tx_open = refl
any_said-on_error tx_is_read = refl
any_said-on_error wrong_tx_type = refl
any_said-on_error parse_error = refl
any_said-on_error type_error = refl
any_said-on_error query_failed = refl
any_said-on_error write_failed = refl
any_said-on_error commit_failed = refl
any_said-on_error result_limit_exceeded = refl
any_said-on_error timeout = refl
any_said-on_error unknown_database = refl
any_said-on_error idle_timeout = refl
any_said-on_error transient_conflict = refl
any_said-on_error upstream_unavailable = refl
any_said-on_error unclassified = refl
