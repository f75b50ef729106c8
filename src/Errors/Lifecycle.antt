-- ===== src/Errors/Lifecycle.antt =====
-- What the classifier promises about the transaction.
use typedb_mcp.Prelude.{
  ℕ, ◌≡◌, refl, if◌then◌else◌, String, Bool, true, false, not, ◌&&◌, ◌||◌, List, arith,
}
use typedb_mcp.Errors.{
  ErrorClass, retriable_in_same_tx, mentions, classify_top_code, classify_typedb_error,
}

-- A code which says that the transaction was torn down, or that none is open.
unfoldable pub mentions_teardown : List ℕ → Bool
mentions_teardown m =
    (mentions m "[WEX1]" || mentions m "[PEX6]" || mentions m "[QEX14]")
    || ((mentions m "[DCT3]" || mentions m "[TSV5]" || mentions m "[HSR18]" || mentions m "[SRV19]")
        || (mentions m "[TSV12]" || mentions m "[TSV13]"))

-- A code of the transaction service which says that the query was refused and the transaction is open.
unfoldable pub mentions_refusal : List ℕ → Bool
mentions_refusal m =
    (mentions m "[TSV9]" || mentions m "[TSV8]") || (mentions m "[TSV2]" || mentions m "[TSV7]")

-- A code which says that executing or planning the query closed the transaction.
unfoldable pub mentions_abort : List ℕ → Bool
mentions_abort m =
    (mentions m "[TSV10]" || mentions m "[QEX3]" || mentions m "[REX24]")
    || (mentions m "[REP27]"
        || mentions m "[REP44]"
        || mentions m "[FER7]"
        || mentions m "[REP23]"
        || mentions m "[QEX7]")

-- A code of the parser's or the type checker's families.
unfoldable pub mentions_static : List ℕ → Bool
mentions_static m = mentions m "[TQL" || (mentions m "[INF" || mentions m "[QUA")

top_code_not_retriable : (top : String) → retriable_in_same_tx (classify_top_code top) ≡ false
unfolding classify_top_code retriable_in_same_tx
top_code_not_retriable top = ground arith

retriable-if :
    (b : Bool) (x y : ErrorClass)
    → retriable_in_same_tx (if b then x else y)
      ≡ (if b then retriable_in_same_tx x else retriable_in_same_tx y)
retriable-if true x y = refl
retriable-if false x y = refl

-- The ladder of the classifier, over its twelve tests.
ladder :
    (a b c d e f g h i j k l z : Bool)
    → z ≡ false
    → (if a
        then false
        else if b
        then false
        else if c
        then false
        else if d
        then false
        else if e
        then true
        else if f
        then true
        else if g
        then true
        else if h
        then false
        else if i
        then false
        else if j
        then true
        else if k
        then true
        else if l
        then false
        else z)
      ≡ (not (a || (b || (c || d))) && ((e || (f || g)) || (not (h || i) && (j || k))))
ladder a b c d e f g h i j k l z p = ground arith

-- The agent is told that its transaction is open exactly when the stack has no teardown code and has a
-- refusal, or has no code of an abort and has one of the parser or the type checker.
pub retriable-classify :
    (top : String) (m : List ℕ)
    → retriable_in_same_tx (classify_typedb_error top m) ≡ (
        not (mentions_teardown m)
        && (mentions_refusal m || (not (mentions_abort m) && mentions_static m)))
unfolding classify_typedb_error retriable_in_same_tx mentions_teardown mentions_refusal
    mentions_abort mentions_static
retriable-classify top m =
    let has : String → Bool = mentions m in
    simp retriable-if (
      ladder (has "[WEX1]" || has "[PEX6]" || has "[QEX14]")
        (has "[DCT3]" || has "[TSV5]" || has "[HSR18]" || has "[SRV19]") (has "[TSV12]")
        (has "[TSV13]") (has "[TSV9]" || has "[TSV8]") (has "[TSV2]") (has "[TSV7]")
        (has "[TSV10]" || has "[QEX3]" || has "[REX24]")
        (has "[REP27]" || has "[REP44]" || has "[FER7]" || has "[REP23]" || has "[QEX7]")
        (has "[TQL") (has "[INF" || has "[QUA") (has "[CNT" || has "[DVL")
        (retriable_in_same_tx (classify_top_code top)) (top_code_not_retriable top))
