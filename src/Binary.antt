-- ===== src/Binary.antt =====
-- crates/typedb-mcp/src/main.rs from the point where the transports run: what wakes the process, and the
-- shutdown. The tasks of the transports and the supervisor's `shutdown` are known by how they end, which is the
-- argument `Surroundings`; the result is what the process does and how it ends. What is only logged is left out.
pub mod Ending
use typedb_mcp.Prelude.{
  ℕ, Bool, true, false, not, ◌&&◌, Option, some, none, List, [], ◌∷◌, ◌++◌, if◌then◌else◌,
}
use typedb_mcp.Migration.Supervisor.Shutdown.{ShutdownResult, completed, still_running}

-- What a `JoinHandle` yields: `Ok(Ok(_))`, `Ok(Err(_))` or `Err(_)`.
pub data Joined : Type 0 where
  well failed broken : Joined

-- A wait under `timeout_at(deadline, ..)`.
pub data Waited (A : Type 0) : Type 0 where
  in_time : A → Waited A
  expired : Waited A

-- How the blocking task that calls `supervisor.shutdown(grace)` ends.
pub data Drained : Type 0 where
  drained : ShutdownResult → Drained
  join_failed : Drained

-- Which branch of the `select!` comes first.
pub data Wake : Type 0 where
  stdio_ended : Joined → Wake
  ctrl_c : Wake
  http_ended : Joined → Wake

pub record Surroundings : Type 0 where
  pub has_http : Bool
  pub has_stdio : Bool
  pub http_exit : Waited Joined
  pub drain : Waited Drained
  pub stdio_exits : Bool

pub data Act : Type 0 where
  stops_admission drains cancels aborts_reaper force_closes : Act

pub data End : Type 0 where
  returns exits_1 bails waits : End

pub record Course : Type 0 where
  pub acts : List Act
  pub end : End

abbrev then_do : List Act → Course → Course
then_do acts c = record { acts = acts ++ c.acts; end = c.end }

-- `reaper.abort(); typedb.force_close(); std::process::exit(1)`
abbrev forced : Course
forced = record { acts = aborts_reaper ∷ force_closes ∷ []; end = exits_1 }

-- The wait for the stdio task, without a deadline, and the end of `main`.
unfoldable pub join_stdio : Bool → Bool → Course
join_stdio true false = record { acts = []; end = waits }
join_stdio true true = record { acts = aborts_reaper ∷ force_closes ∷ []; end = returns }
join_stdio false exits = record { acts = aborts_reaper ∷ force_closes ∷ []; end = returns }

unfoldable pub after_drain : Waited Drained → Course → Course
after_drain (in_time (drained completed)) k = k
after_drain (in_time (drained still_running)) k = forced
after_drain (in_time join_failed) k = forced
after_drain expired k = forced

unfoldable pub after_http : Waited Joined → Course → Course
after_http (in_time well) k = k
after_http (in_time failed) k = forced
after_http (in_time broken) k = forced
after_http expired k = forced

-- `http_future`: the result that the `select!` recorded, or the task's under the deadline, or nothing to
-- wait for.
abbrev pub http_outcome : Surroundings → Option Joined → Waited Joined
http_outcome s (some j) = in_time j
http_outcome s none = if s.has_http then s.http_exit else in_time well

-- From `stop_admission` on. `stdio_left` says whether the stdio task is still to be joined.
unfoldable pub shut_down : Surroundings → Option Joined → Bool → Course
unfolding join_stdio after_drain after_http
shut_down s http_result stdio_left = then_do (stops_admission ∷ drains ∷ cancels ∷ cancels ∷ []) (
    after_http (http_outcome s http_result)
      (after_drain s.drain (join_stdio stdio_left s.stdio_exits)))

-- The branches of the `select!`.
unfoldable pub woken : Surroundings → Wake → Course
unfolding shut_down
woken s (stdio_ended j) = shut_down s none false
woken s ctrl_c = shut_down s none s.has_stdio
woken s (http_ended well) = shut_down s (some well) s.has_stdio
woken s (http_ended failed) = then_do (cancels ∷ []) forced
woken s (http_ended broken) = then_do (cancels ∷ []) forced

-- With the transports spawned.
unfoldable pub run : Surroundings → Wake → Course
unfolding woken
run s wake =
    if not s.has_http && not s.has_stdio then record { acts = []; end = bails } else woken s wake
