-- ===== src/Examples/Ending.antt =====
-- The shutdown of the supervisor and of the binary, the two ways to a client, and a document.
use typedb_mcp.Prelude.{ℕ, ◌*◌, ◌≡◌, refl, Bool, true, false, none, some, arith}
use typedb_mcp.Config.{TypeDbConfig}
use typedb_mcp.Migration.Supervisor.Shutdown.{shutdown}
use typedb_mcp.Migration.Supervisor.Shutdown.Draining.{Polled, shutdown-Polled}
use typedb_mcp.Binary.{Surroundings, well, in_time, drained, ctrl_c}
use typedb_mcp.Migration.Supervisor.Shutdown.{completed}
use typedb_mcp.Binary.Ending.{Ended, run-Ended}
use typedb_mcp.Answers.Json.{
  Numbers, Document, number, text_document, members, member, no_members, driver_json_to_serde,
}
use typedb_mcp.Answers.Json.Faithful.{read_back, finite_part, read_back-driver_json_to_serde}
use typedb_mcp.Examples.Demo.{demo_typedb}
use typedb_mcp.Examples.Supervising.{loaded, loaded-IsHonest}

-- A millisecond for each look at the clock, and one step of the worker between two looks.
shutdown-Polled_example : Polled (shutdown 5_000_000 (λ n. n * 1_000_000) (λ n. 1) loaded)
shutdown-Polled_example =
    shutdown-Polled 5_000_000 (λ n. n * 1_000_000) (λ n. 1) loaded loaded-IsHonest
      (λ n. omega arith)

-- The client of stdio never closes its end.
abbrev stubborn : Surroundings
stubborn = record {
  has_http = true;
  has_stdio = true;
  http_exit = in_time well;
  drain = in_time (drained completed);
  stdio_exits = false;
}

run-Ended_example : Ended stubborn ctrl_c
run-Ended_example = run-Ended stubborn ctrl_c tt refl

-- A configuration with every connection option, and one with none.
abbrev plain : TypeDbConfig
plain = record demo_typedb { request_timeout_s = none }

abbrev laden : TypeDbConfig
laden = record plain {
  tls_root_ca_path = some "/etc/ca.pem";
  request_timeout_s = some 5;
  primary_failover_retries = some 3;
}

-- One number that is finite and one that is not.
abbrev two_numbers : Numbers
two_numbers = record { Int = ℕ; Float = Bool; is_finite = λ b. b; text = λ b. "x" }

abbrev order : Document two_numbers
order = members (
    member "price" (number true)
      (member "ratio" (number false) (member "item" (text_document "cup") no_members)))

read_back-driver_json_to_serde_example :
    read_back two_numbers (driver_json_to_serde two_numbers order) ≡ finite_part two_numbers order
read_back-driver_json_to_serde_example = read_back-driver_json_to_serde two_numbers order
