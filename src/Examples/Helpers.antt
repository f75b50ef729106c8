-- ===== src/Examples/Helpers.antt =====
-- The theorems on the transaction helpers, the reaper and the admin tools at the demo states.
use typedb_mcp.Prelude.{ℕ, List, [], ◌∷◌, ◌≡◌, refl, String, true, false, some, none, arith, has}
use typedb_mcp.Kinds.{TxKind, write}
use typedb_mcp.Errors.{unclassified}
use typedb_mcp.Names.{validate_database_name}
use typedb_mcp.Wire.{Wire, DriverTransaction}
use typedb_mcp.Session.{snapshot}
use typedb_mcp.Session.Store.{World, done, blocked, M, pure}
use typedb_mcp.Session.Store.Resolve.{IsLive}
use typedb_mcp.Envelope.{
  CallToolResult, envelope, state_error, after_rollback_ok, on_upstream_unavailable,
}
use typedb_mcp.Tools.Databases.{do_create_database, do_delete_database}
use typedb_mcp.Tools.Databases.Refusals.{Guarded}
use typedb_mcp.Tools.Databases.Deleting.{NoneOn, do_delete_database-Guarded}
use typedb_mcp.Tools.Databases.Gates.{do_create_database_long}
use typedb_mcp.Tools.Migrate.{Awaited, awaited, do_migration}
use typedb_mcp.Migration.Disk.{import_kind}
use typedb_mcp.Migration.Supervisor.{dropped}
use typedb_mcp.Tools.Migrate.SelfLock.{do_migration_blocks}
use typedb_mcp.Kernel.{Tried, fine, TxOutcome, commit_with, Closure, with_owned_tx}
use typedb_mcp.Kernel.Calls.{OwnedCalls, with_owned_tx_calls}
use typedb_mcp.Config.{min_idle_timeout, idle_timeout_for}
use typedb_mcp.Reaper.{reap, tick, run_reaper}
use typedb_mcp.Reaper.Sweep.{Made}
use typedb_mcp.Tools.Transactions.Ending.{release_call}
use typedb_mcp.Reaper.Loop.{run_reaper_releases}
use typedb_mcp.Reaper.Sweep.{Swept}
use typedb_mcp.Reaper.Round.{reap-Swept}
use typedb_mcp.Examples.Demo.{demo_env, demo_tx, two_sessions, late, idle_state}

abbrev committing : Closure TxOutcome
committing t x = (fine (commit_with "{}"), x)

abbrev reading : Closure String
reading t x = (fine "{}", x)

abbrev reading_current : DriverTransaction → TxKind → String → Wire → Tried String × Wire
reading_current t kind database x = (fine "{}", x)

with_owned_tx_calls_example :
    (a : CallToolResult) × (v : World) × (with_owned_tx demo_env "b" "shop" write after_rollback_ok
        committing two_sessions
      ≡ done a v)
    × ((j : String) → (v.arcs j).tx ≡ (two_sessions.arcs j).tx)
    × OwnedCalls demo_env "shop" write committing
        (two_sessions.arcs "b")
        two_sessions.wire
        a.is_error
        v.wire.trace
with_owned_tx_calls_example =
    with_owned_tx_calls demo_env "b" "shop" write after_rollback_ok committing two_sessions refl
      refl

reap-Swept_example :
    (v : World) × (reap demo_env late ≡ done tt v) × Swept demo_env 200 late.ids late v
reap-Swept_example = reap-Swept demo_env late refl

abbrev never_run : M Awaited
never_run = pure (awaited dropped)

IsLive-a_too : IsLive demo_env "a" two_sessions
unfolding has
IsLive-a_too = record { free = refl; store = refl; known = refl; ahead = refl }

IsLive-b_too : IsLive demo_env "b" two_sessions
unfolding has
IsLive-b_too = record { free = refl; store = refl; known = refl; ahead = refl }

do_migration_blocks_example :
    (v : World) × (do_migration demo_env true import_kind "a" "shop"
        (some "shop")
        never_run
        two_sessions
      ≡ blocked v)
    × (has "a" v.held ≡ true)
    × (v.store_held ≡ false)
do_migration_blocks_example =
    do_migration_blocks demo_env import_kind "a" "shop" (some "shop") never_run two_sessions demo_tx
      IsLive-a_too refl refl

abbrev long_name : String
long_name =
    "aaaaaaaaaaaaaaaaaaaaaaaaaaaaaaaaaaaaaaaaaaaaaaaaaaaaaaaaaaaaaaaaaaaaaaaaaaaaaaaaaaaaaaaaaaaaaaaaaaaaaaaaaaaaaaaaaaaaaaaaaaaaaaaaa"

do_create_database_long_example :
    (v : World) × (do_create_database demo_env "b" long_name two_sessions
      ≡ done
          (envelope demo_env
            (snapshot "b" (v.arcs "b"))
            (state_error unclassified on_upstream_unavailable))
          v)
    × (v.wire.trace ≡ two_sessions.wire.trace)
unfolding validate_database_name
do_create_database_long_example =
    do_create_database_long demo_env "b" long_name two_sessions IsLive-b_too refl refl (omega arith)

-- No session has a transaction.
abbrev calm : World
calm = record two_sessions { arcs = λ id. idle_state }

IsLive-b_calm : IsLive demo_env "b" calm
unfolding has
IsLive-b_calm = record { free = refl; store = refl; known = refl; ahead = refl }

abbrev shop : String
shop = "shop"

do_delete_database-Guarded_example :
    Guarded shop
      ((shop ≡ shop) × (validate_database_name shop ≡ none) × NoneOn shop calm)
      calm.wire.trace
      (do_delete_database demo_env "b" shop shop)
      calm
do_delete_database-Guarded_example =
    do_delete_database-Guarded demo_env "b" shop shop calm IsLive-b_calm

-- Rounds every fifteen seconds, from seven nanoseconds on.
abbrev rounds : List ℕ
rounds = 15_000_000_007 ∷ 30_000_000_007 ∷ 45_000_000_007 ∷ 60_000_000_007 ∷ []

run_reaper_releases_example :
    (v : World) × (run_reaper demo_env (7 ∷ rounds) two_sessions ≡ done tt v)
    × (((v.arcs "a").tx ≡ none) × Made (release_call demo_tx) v.wire.trace)
unfolding has tick min_idle_timeout idle_timeout_for
run_reaper_releases_example =
    run_reaper_releases demo_env "a" demo_tx 7 rounds two_sessions refl refl refl refl (omega arith)
      (omega arith, (omega arith, (omega arith, (omega arith, tt)))) (omega arith)
