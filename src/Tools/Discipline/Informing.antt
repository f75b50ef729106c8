-- ===== src/Tools/Discipline/Informing.antt =====
-- `server_info` keeps the invariant.
use typedb_mcp.Prelude.{String, false}
use typedb_mcp.Kinds.{ExecutionContext}
use typedb_mcp.Wire.{Env}
use typedb_mcp.Session.{SessionSnapshot}
use typedb_mcp.Session.Store.Runs.{Runs}
use typedb_mcp.Tools.ServerInfo.{answer_info, do_server_info}
use typedb_mcp.Tools.Discipline.Handlers.{handler_rules}

Runs-answer_info :
    (e : Env) (context : ExecutionContext) (snap : SessionSnapshot)
    → Runs false false (answer_info e context snap)
unfolding answer_info
Runs-answer_info e context snap = record { at = λ w h. h }

pub Runs-do_server_info :
    (e : Env) (sid : String) (context : ExecutionContext)
    → Runs false false (do_server_info e sid context)
unfolding do_server_info
Runs-do_server_info e sid context = search (handler_rules, Runs-answer_info) depth 9
