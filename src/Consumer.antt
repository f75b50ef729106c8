-- ===== src/Consumer.antt =====
-- `count_entities` of crates/example-semantic-mcp/src/main.rs, a consumer's tool on the kernel's helpers. How
-- the answer is serialized is the argument `render`.
pub mod Counting
pub mod Sending
use typedb_mcp.Prelude.{
  ℕ, String, Bool, true, false, not, ◌||◌, List, [], ◌∷◌, eqb, if◌then◌else◌, every, codes, format,
  is_ascii_alphanumeric,
}
use typedb_mcp.Errors.{driver, parse_error}
use typedb_mcp.Wire.{Env, Wire, Reply, ok, err, DriverTransaction, query}
use typedb_mcp.Answers.{QueryAnswerJson, query_answer_to_json}
use typedb_mcp.Session.Store.{M}
use typedb_mcp.Envelope.{CallToolResult, Moves, Verdict, given, state_error, conclude}
use typedb_mcp.Tools.{resolving}
use typedb_mcp.Kernel.{Tried, fine, failed, Closure, with_read_tx}

abbrev pub is_label_char : ℕ → Bool
is_label_char c = is_ascii_alphanumeric c || eqb c b'_' || eqb c b'-'

abbrev pub is_label : String → Bool
is_label s = every is_label_char (codes s)

unfoldable pub count_query : String → String
count_query entity_type = format ("match $x isa " ∷ entity_type ∷ "; reduce $count = count;" ∷ [])

abbrev pub counted : (QueryAnswerJson → String) → Reply QueryAnswerJson → Tried String
counted render (ok json) = fine (render json)
counted render (err d) = failed (driver d)

-- The closure: one query, at most ten answers.
unfoldable pub counting : Env → (QueryAnswerJson → String) → String → Closure String
unfolding query
counting e render typeql t x =
    let (r, x') = query e t typeql x in
    elim r [
      | err d ↦ (failed (driver d), x')
      | ok answer ↦ (counted render (query_answer_to_json answer 10), x')
    ]

abbrev pub count_hints : Moves
count_hints = given (
    "Reissue with a different entity_type to count another set."
    ∷ format (
        "Or call `set_focus(session_id=..., entity_id=...)` to pin a focus entity for this "
        ∷ "session, then `current_focus(session_id=...)` to read it back." ∷ [])
    ∷ [])

abbrev pub not_a_label : Verdict
not_a_label = state_error parse_error (given ("Reissue with a valid entity type label." ∷ []))

unfoldable pub count_entities :
    Env → (QueryAnswerJson → String) → String → String → String → M CallToolResult
unfolding count_query counting
count_entities e render sid database entity_type = resolving e sid (
    if not (is_label entity_type)
    then conclude e sid not_a_label
    else with_read_tx e sid database count_hints (counting e render (count_query entity_type)))
