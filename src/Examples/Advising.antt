-- ===== src/Examples/Advising.antt =====
-- The theorems on what the query tools tell, with a server that refuses every query.
use typedb_mcp.Prelude.{◌≡◌, refl, String, false, some, has, bytes, contains}
use typedb_mcp.Kinds.{http}
use typedb_mcp.Config.{session_ttl}
use typedb_mcp.Errors.{
  DriverError, driver, server, parse_error, session_unknown, retriable_in_same_tx,
  classify_driver_error, classify_typedb_error, mentions, to_class,
}
use typedb_mcp.Wire.{Env, err, query, now}
use typedb_mcp.Session.Store.{
  World, Outcome, done, blocked, ◌>>=◌, ◌>>◌, pure, put, lock, inside, drop, locked, lock_store,
  drop_store, keys, calling, resolve_and_touch, snapshot_arc,
}
use typedb_mcp.Session.Store.Resolve.{IsLive}
use typedb_mcp.Envelope.{
  CallToolResult, envelope, envelope_err, envelope_state_error_no_session, on_session_unknown,
  conclude,
}
use typedb_mcp.Tools.{resolving}
use typedb_mcp.Tools.Queries.{do_query, do_read_once, query_window, keep_if_retriable, materialize}
use typedb_mcp.Tools.Queries.Retriable.{is_open, flag}
use typedb_mcp.Tools.Queries.Advice.{class_of, IsHonest, do_query-IsHonest}
use typedb_mcp.Tools.Queries.Retrying.{Unopened, do_query_again, Misled, do_read_once-Misled}
use typedb_mcp.Tools.ServerInfo.{do_server_info}
use typedb_mcp.Tools.ServerInfo.Telling.{IsInformed, do_server_info-IsInformed}
use typedb_mcp.Examples.Demo.{demo_env, two_sessions}

-- A concurrent rollback hits every query.
abbrev conflict : DriverError
conflict = server "TSV13" (bytes "[TSV13] rollback")

abbrev conflicting : Env
conflicting = record demo_env { on_query = λ calls. err conflict }

-- No query can be parsed.
abbrev misspelt : DriverError
misspelt = server "TQL3" (bytes "[TQL3] syntax")

abbrev unparsing : Env
unparsing = record demo_env { on_query = λ calls. err misspelt }

IsLive-a_conflict : IsLive conflicting "a" two_sessions
unfolding has
IsLive-a_conflict = record { free = refl; store = refl; known = refl; ahead = refl }

do_query-IsHonest_example :
    (a : CallToolResult) × (v : World) × (do_query conflicting "a" "match" two_sessions ≡ done a v)
    × IsHonest (class_of a) a.content.next_moves (is_open (v.arcs "a"))
do_query-IsHonest_example = do_query-IsHonest conflicting "a" "match" two_sessions IsLive-a_conflict

abbrev world_of : Outcome CallToolResult → World
world_of (done a w) = w
world_of (blocked w) = w

abbrev answer_of : CallToolResult → Outcome CallToolResult → CallToolResult
answer_of b (done a w) = a
answer_of b (blocked w) = b

abbrev nothing : CallToolResult
nothing = envelope_state_error_no_session session_unknown on_session_unknown

abbrev refused : Outcome CallToolResult
refused = do_query conflicting "a" "match" two_sessions

refuses : refused ≡ done (answer_of nothing refused) (world_of refused)
unfolding do_query resolving resolve_and_touch lock_store drop_store keys calling now locked lock
    inside drop has put query_window materialize query keep_if_retriable classify_driver_error
    classify_typedb_error mentions contains conclude snapshot_arc retriable_in_same_tx to_class
    ◌>>=◌ ◌>>◌ pure
refuses = refl

refused-flag : flag (answer_of nothing refused) ≡ some false
unfolding do_query resolving resolve_and_touch lock_store drop_store keys calling now locked lock
    inside drop has put query_window materialize query keep_if_retriable classify_driver_error
    classify_typedb_error mentions contains conclude snapshot_arc retriable_in_same_tx to_class
    ◌>>=◌ ◌>>◌ pure envelope envelope_err
refused-flag = refl

IsLive-a_after : IsLive conflicting "a" (world_of refused)
unfolding do_query resolving resolve_and_touch lock_store drop_store keys calling now locked lock
    inside drop has put query_window materialize query keep_if_retriable classify_driver_error
    classify_typedb_error mentions contains conclude snapshot_arc retriable_in_same_tx to_class
    ◌>>=◌ ◌>>◌ pure session_ttl
IsLive-a_after = record { free = refl; store = refl; known = refl; ahead = refl }

do_query_again_example :
    (b : CallToolResult) × (u : World) × (do_query conflicting "a" "match" (world_of refused)
      ≡ done b u)
    × Unopened b (world_of refused).wire.trace u.wire.trace
do_query_again_example =
    do_query_again conflicting "a" "match" "match" two_sessions (world_of refused)
      (answer_of nothing refused) IsLive-a_conflict refuses refused-flag IsLive-a_after

IsLive-b_unparsed : IsLive unparsing "b" two_sessions
unfolding has
IsLive-b_unparsed = record { free = refl; store = refl; known = refl; ahead = refl }

unparsed : to_class (driver misspelt) ≡ parse_error
unfolding to_class classify_driver_error classify_typedb_error mentions contains
unparsed = refl

do_read_once-Misled_example :
    (a : CallToolResult) × (v : World) × (do_read_once unparsing "b" "shop" "match" two_sessions
      ≡ done a v)
    × Misled "b" "shop" a v
unfolding has
do_read_once-Misled_example =
    do_read_once-Misled unparsing "b" "shop" "match" two_sessions misspelt IsLive-b_unparsed refl
      refl refl refl unparsed

do_server_info-IsInformed_example :
    (a : CallToolResult) × (u : World) × (do_server_info conflicting "a" http two_sessions
      ≡ done a u)
    × IsInformed conflicting http a.content.result (class_of a)
    × ((j : String) → (u.arcs j).tx ≡ (two_sessions.arcs j).tx)
    × (u.wire.trace ≡ two_sessions.wire.trace)
do_server_info-IsInformed_example =
    do_server_info-IsInformed conflicting "a" http two_sessions IsLive-a_conflict
