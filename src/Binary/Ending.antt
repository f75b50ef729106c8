-- ===== src/Binary/Ending.antt =====
-- How the process ends.
use typedb_mcp.Prelude.{◌≡◌, Bool, true, false, not, ◌||◌, List, [], ◌∷◌, arith}
use typedb_mcp.Migration.Supervisor.Shutdown.{completed}
use typedb_mcp.Binary.{
  Joined, well, Waited, in_time, expired, Drained, drained, Wake, stdio_ended, ctrl_c, http_ended,
  Surroundings, Act, drains, force_closes, End, returns, exits_1, waits, join_stdio, after_drain,
  after_http, shut_down, woken, run,
}

-- The `select!` takes a branch only if it is enabled.
abbrev pub IsEnabled : Surroundings → Wake → Type 0
IsEnabled s (stdio_ended j) = s.has_stdio ≡ true
IsEnabled s ctrl_c = Unit {0}
IsEnabled s (http_ended j) = s.has_http ≡ true

abbrev is_well : Joined → Bool
is_well well = true
is_well _ = false

abbrev is_in_time : Waited Joined → Bool
is_in_time (in_time j) = is_well j
is_in_time expired = false

-- HTTP was not running, had ended well before the shutdown, or ended well before the deadline.
abbrev pub http_well : Surroundings → Wake → Bool
http_well s (http_ended j) = is_well j
http_well s (stdio_ended j) = not s.has_http || is_in_time s.http_exit
http_well s ctrl_c = not s.has_http || is_in_time s.http_exit

abbrev pub is_drained : Waited Drained → Bool
is_drained (in_time (drained completed)) = true
is_drained _ = false

-- The stdio task is over, or will be.
abbrev pub stdio_over : Surroundings → Wake → Bool
stdio_over s (stdio_ended j) = true
stdio_over s _ = not s.has_stdio || s.stdio_exits

-- The end by these three, and whether the driver's connection is closed.
abbrev pub end_of : Bool → Bool → Bool → End
end_of true true true = returns
end_of true true false = waits
end_of true false over = exits_1
end_of false jobs over = exits_1

abbrev pub closes : List Act → Bool
closes [] = false
closes (force_closes ∷ rest) = true
closes (act ∷ rest) = closes rest

abbrev pub waits_for_jobs : List Act → Bool
waits_for_jobs [] = false
waits_for_jobs (drains ∷ rest) = true
waits_for_jobs (act ∷ rest) = waits_for_jobs rest

abbrev pub is_waiting : End → Bool
is_waiting waits = true
is_waiting _ = false

-- HTTP ended on its own, and not well.
abbrev pub is_http_failure : Wake → Bool
is_http_failure (http_ended j) = not (is_well j)
is_http_failure _ = false

pub record Ended (s : Surroundings) (wake : Wake) : Type 0 where
  pub ended : (run s wake).end ≡ end_of (http_well s wake) (is_drained s.drain) (stdio_over s wake)
  pub closed : closes (run s wake).acts ≡ not (is_waiting (run s wake).end)
  pub jobs_waited : waits_for_jobs (run s wake).acts ≡ not (is_http_failure wake)

-- Once a transport runs, the process ends by three things: whether HTTP ended well and in time, whether
-- the migration jobs drained in time, and whether the stdio task ends. It returns if all three hold, exits with 1 if one of the
-- first two fails, and waits for ever if only the stdio task does not end: that wait has no deadline. It
-- closes the driver's connection in all cases but that one, and waits for the jobs unless an HTTP
-- failure woke it.
pub run-Ended :
    (s : Surroundings) (wake : Wake)
    → IsEnabled s wake
    → s.has_http || s.has_stdio ≡ true
    → Ended s wake
unfolding run woken shut_down after_http after_drain join_stdio
run-Ended s wake h k = record {
  ended = ground arith;
  closed = ground arith;
  jobs_waited = ground arith;
}
