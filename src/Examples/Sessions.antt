-- ===== src/Examples/Sessions.antt =====
-- The theorems on sessions, transactions and the server at the demo states.
use typedb_mcp.Prelude.{◌==◌, ◌≡◌, refl, String, false, List, [], ◌∷◌, has}
use typedb_mcp.Kinds.{read}
use typedb_mcp.Session.Store.{World, done, blocked, resolve_and_touch}
use typedb_mcp.Session.Store.Runs.{Inv, Post}
use typedb_mcp.Session.Store.Resolve.{IsLive, resolve_stalls}
use typedb_mcp.Envelope.{CallToolResult}
use typedb_mcp.Tools.Transactions.{do_open_any, do_commit}
use typedb_mcp.Tools.Transactions.Lifecycle.{Gated, do_open_any-Gated}
use typedb_mcp.Tools.Transactions.SchemaCommit.{SchemaCommitted, do_commit_schema}
use typedb_mcp.Tools.Queries.{do_read_once}
use typedb_mcp.Consumer.{count_entities}
use typedb_mcp.Consumer.Sending.{Counted, count_entities-Counted}
use typedb_mcp.Tools.Queries.Retriable.{ReadOnce, do_read_once_leaves}
use typedb_mcp.Server.{Request, start_session, get_schema, open_write, query, commit, serve, fresh}
use typedb_mcp.Server.Safety.{serve-Inv}
use typedb_mcp.Tools.Transactions.{checkpoint_window, do_rollback}
use typedb_mcp.Tools.Transactions.Ending.{RolledBack, do_rollback_ends}
use typedb_mcp.Tools.Transactions.Checkpoint.{Checkpointed, checkpoint_window-Checkpointed}
use typedb_mcp.Examples.Demo.{demo_env, demo_tx, demo_wire, busy_state, two_sessions, migrating}

IsLive-a : IsLive demo_env "a" two_sessions
unfolding has
IsLive-a = record { free = refl; store = refl; known = refl; ahead = refl }

IsLive-b : IsLive demo_env "b" two_sessions
unfolding has
IsLive-b = record { free = refl; store = refl; known = refl; ahead = refl }

abbrev requests : List Request
requests =
    start_session
    ∷ get_schema "aaaaaaaa-0000" "shop"
    ∷ open_write "aaaaaaaa-0000" "shop"
    ∷ query "aaaaaaaa-0000" "match"
    ∷ commit "aaaaaaaa-0000"
    ∷ []

serve-Inv_example : Post (Inv false) (serve demo_env requests fresh)
serve-Inv_example = serve-Inv demo_env requests

do_commit_schema_example :
    (a : CallToolResult) × (v : World) × (do_commit demo_env "a" two_sessions ≡ done a v)
    × SchemaCommitted "a" demo_tx two_sessions a v
do_commit_schema_example =
    do_commit_schema demo_env "a" two_sessions demo_tx IsLive-a refl refl refl

do_read_once_leaves_example :
    (a : CallToolResult) × (v : World) × (do_read_once demo_env "b" "shop" "match" two_sessions
      ≡ done a v)
    × ReadOnce demo_env "b" "shop" "match" two_sessions a v
do_read_once_leaves_example = do_read_once_leaves demo_env "b" "shop" "match" two_sessions IsLive-b

count_entities-Counted_example :
    (a : CallToolResult) × (v : World) × (count_entities demo_env
        (λ json. "[]")
        "b"
        "shop"
        "customer"
        two_sessions
      ≡ done a v)
    × Counted demo_env "b" "shop" "customer" two_sessions a v
count_entities-Counted_example =
    count_entities-Counted demo_env (λ json. "[]") "b" "shop" "customer" two_sessions IsLive-b

do_open_any-Gated_example :
    (a : CallToolResult) × (v : World) × (do_open_any demo_env "b" "shop" read two_sessions
      ≡ done a v)
    × ((j : String) → ("b" == j) ≡ false → v.arcs j ≡ two_sessions.arcs j)
    × Gated "b" "shop" read two_sessions v
do_open_any-Gated_example = do_open_any-Gated demo_env "b" "shop" read two_sessions IsLive-b

resolve_stalls_example :
    (v : World) × (resolve_and_touch demo_env "a" 30 migrating ≡ blocked v)
    × (v.arcs ≡ migrating.arcs)
    × (v.wire.trace ≡ migrating.wire.trace)
    × ((j : String) → resolve_and_touch demo_env j 30 v ≡ blocked v)
unfolding has
resolve_stalls_example = resolve_stalls demo_env "a" 30 migrating refl refl refl

do_rollback_ends_example :
    (a : CallToolResult) × (v : World) × (do_rollback demo_env "a" two_sessions ≡ done a v)
    × RolledBack "a" two_sessions a v
do_rollback_ends_example = do_rollback_ends demo_env "a" two_sessions IsLive-a

checkpoint_window-Checkpointed_example :
    let r = checkpoint_window demo_env busy_state demo_wire in
    Checkpointed demo_env demo_tx demo_wire.trace r.0.verdict r.1.tx r.2.trace
checkpoint_window-Checkpointed_example =
    checkpoint_window-Checkpointed demo_env busy_state demo_wire demo_tx refl refl
