-- ===== src/Tools/Discipline/Handlers.antt =====
-- The handlers keep the invariant, on every branch.
use typedb_mcp.Prelude.{String, Bool, false, Option, none, some}
use typedb_mcp.Kinds.{TxKind}
use typedb_mcp.Wire.{Env, list_databases, get_schema, create_database, delete_database}
use typedb_mcp.Session.Store.{M, calling, Resolved, found, unknown, expired}
use typedb_mcp.Session.Store.Runs.{Runs, Runs-calling, Runs-bind}
use typedb_mcp.Session.Store.Operations.{store_rules, Runs-resolve_and_touch, Runs-snapshot_arc}
use typedb_mcp.Envelope.{CallToolResult, Verdict, conclude}
use typedb_mcp.Tools.{resolving, or_answer}
use typedb_mcp.Tools.Transactions.{
  reading_reserved, invalidate, do_open_any, do_checkpoint, do_commit, do_rollback,
}
use typedb_mcp.Tools.Queries.{do_query, do_read_once}
use typedb_mcp.Tools.Discipline.Windows.{window_rules}

pub Runs-conclude : {b : Bool} (e : Env) (id : String) (v : Verdict) → Runs b b (conclude e id v)
unfolding conclude
Runs-conclude e id v = search store_rules

Runs-or_answer :
    (r : Resolved) (k : M CallToolResult) → Runs false false k → Runs false false (or_answer r k)
Runs-or_answer found k h = h
Runs-or_answer unknown k h = search store_rules
Runs-or_answer expired k h = search store_rules

pub Runs-resolving :
    (e : Env) (sid : String) (k : M CallToolResult)
    → Runs false false k
    → Runs false false (resolving e sid k)
unfolding resolving
Runs-resolving e sid k h = Runs-bind _ _ (Runs-resolve_and_touch _ _ _) (λ r. Runs-or_answer r k h)

pub Runs-reading_reserved :
    {A : Type 0} {b c : Bool} (database : String) (k : Bool → M A)
    → ((r : Bool) → Runs b c (k r))
    → Runs b c (reading_reserved database k)
unfolding reading_reserved
Runs-reading_reserved database k h = record { at = λ w. (h _).at w }

pub Runs-invalidate_if : (o : Option String) (sid : String) → Runs false false (invalidate o sid)
Runs-invalidate_if none sid = search store_rules
Runs-invalidate_if (some database) sid = search store_rules

pub ruleset handler_rules = (
  store_rules, window_rules, Runs-conclude, Runs-resolving, Runs-reading_reserved,
  Runs-invalidate_if,
)

pub Runs-do_open_any :
    (e : Env) (sid database : String) (kind : TxKind)
    → Runs false false (do_open_any e sid database kind)
unfolding do_open_any
Runs-do_open_any e sid database kind = search handler_rules depth 9

pub Runs-do_checkpoint : (e : Env) (sid : String) → Runs false false (do_checkpoint e sid)
unfolding do_checkpoint
Runs-do_checkpoint e sid = search handler_rules depth 9

pub Runs-do_commit : (e : Env) (sid : String) → Runs false false (do_commit e sid)
unfolding do_commit
Runs-do_commit e sid = search handler_rules depth 9

pub Runs-do_rollback : (e : Env) (sid : String) → Runs false false (do_rollback e sid)
unfolding do_rollback
Runs-do_rollback e sid = search handler_rules depth 9

pub Runs-do_query : (e : Env) (sid text : String) → Runs false false (do_query e sid text)
unfolding do_query
Runs-do_query e sid text = search handler_rules depth 9

pub Runs-do_read_once :
    (e : Env) (sid database text : String) → Runs false false (do_read_once e sid database text)
unfolding do_read_once
Runs-do_read_once e sid database text = search handler_rules depth 9

pub Runs-list : {b : Bool} (e : Env) → Runs b b (calling (list_databases e))
unfolding list_databases
Runs-list e = Runs-calling _ (λ x l. (tt, l))

pub Runs-schema :
    {b : Bool} (e : Env) (database : String) → Runs b b (calling (get_schema e database))
unfolding get_schema
Runs-schema e database = Runs-calling _ (λ x l. (tt, l))

pub Runs-create :
    {b : Bool} (e : Env) (database : String) → Runs b b (calling (create_database e database))
unfolding create_database
Runs-create e database = Runs-calling _ (λ x l. (tt, l))

pub Runs-delete :
    {b : Bool} (e : Env) (database : String) → Runs b b (calling (delete_database e database))
unfolding delete_database
Runs-delete e database = Runs-calling _ (λ x l. (tt, l))
