-- ===== src/Answers.antt =====
-- `query_answer_to_json` of crates/typedb-mcp-core/src/typedb.rs: the answers of a query, up to the cap.
-- An item of a stream stands as its rendering, which Json has.
pub mod Cap
pub mod Json
use typedb_mcp.Prelude.{
  ℕ, String, Bool, true, false, Option, none, some, List, [], ◌∷◌, ◌++◌, leb, if◌then◌else◌, length,
}
use typedb_mcp.Wire.{Reply, ok, err, QueryAnswer, done_answer, concept_rows, concept_documents}

-- `answers` is `none` where the source has JSON's null.
pub record QueryAnswerJson : Type 0 where
  pub query_type : String
  pub answer_type : String
  pub answers : Option (List String)
  pub truncated : Bool

-- The loop of both streams: an error of the stream ends it, and so does the item past the cap.
unfoldable pub collect : ℕ → List String → List (Reply String) → Reply (List String × Bool)
collect max_answers rows [] = ok (rows, false)
collect max_answers rows (err e ∷ stream) = err e
collect max_answers rows (ok row ∷ stream) =
    let more = collect max_answers (rows ++ row ∷ []) stream in
    if leb max_answers (length rows) then ok (rows, true) else more

abbrev pub rendered : String → String → Reply (List String × Bool) → Reply QueryAnswerJson
rendered query_type answer_type (err e) = err e
rendered query_type answer_type (ok (rows, truncated)) = ok (record {
  query_type = query_type;
  answer_type = answer_type;
  answers = some rows;
  truncated = truncated;
})

unfoldable pub query_answer_to_json : QueryAnswer → ℕ → Reply QueryAnswerJson
unfolding collect
query_answer_to_json (done_answer query_type) max_answers =
    ok (record { query_type = query_type; answer_type = "ok"; answers = none; truncated = false })
query_answer_to_json (concept_rows query_type stream) max_answers =
    rendered query_type "conceptRows" (collect max_answers [] stream)
query_answer_to_json (concept_documents query_type stream) max_answers =
    rendered query_type "conceptDocuments" (collect max_answers [] stream)
