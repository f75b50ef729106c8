-- ===== src/Tools/Discipline/Windows.antt =====
-- The windows of the tools keep sessions faithful and the trace lawful.
use typedb_mcp.Prelude.{String, Bool, arith}
use typedb_mcp.Kinds.{TxKind}
use typedb_mcp.Wire.{Env, rollback, close}
use typedb_mcp.Session.Store.Runs.{Keeps}
use typedb_mcp.Tools.Transactions.{open_window, checkpoint_window, commit_window, rollback_window}
use typedb_mcp.Tools.Queries.{query_window, read_once_window}
use typedb_mcp.Tools.Databases.{see, has_tx, has_tx_on}

pub Keeps-open_window :
    (e : Env) (reserved : Bool) (database : String) (kind : TxKind)
    → Keeps (open_window e reserved database kind)
unfolding open_window
Keeps-open_window e reserved database kind = record { at = λ s x h l. ground arith }

pub Keeps-checkpoint_window : (e : Env) → Keeps (checkpoint_window e)
unfolding checkpoint_window
Keeps-checkpoint_window e = record { at = λ s x h l. ground arith }

pub Keeps-commit_window : (e : Env) → Keeps (commit_window e)
unfolding commit_window
Keeps-commit_window e = record { at = λ s x h l. ground arith }

pub Keeps-rollback_window : (e : Env) → Keeps (rollback_window e)
unfolding rollback_window rollback close
Keeps-rollback_window e = record { at = λ s x h l. ground arith }

pub Keeps-query_window : (e : Env) (text : String) → Keeps (query_window e text)
unfolding query_window
Keeps-query_window e text = record { at = λ s x h l. ground arith }

pub Keeps-read_once_window :
    (e : Env) (database text : String) → Keeps (read_once_window e database text)
unfolding read_once_window
Keeps-read_once_window e database text = record { at = λ s x h l. ground arith }

pub Keeps-see : (database : String) → Keeps (see database)
Keeps-see database = record { at = λ s x h l. (h, l) }

pub Keeps-has_tx : Keeps has_tx
Keeps-has_tx = record { at = λ s x h l. (h, l) }

pub Keeps-has_tx_on : (database : String) → Keeps (has_tx_on database)
Keeps-has_tx_on database = record { at = λ s x h l. (h, l) }

pub ruleset window_rules = (
  Keeps-open_window, Keeps-checkpoint_window, Keeps-commit_window, Keeps-rollback_window,
  Keeps-query_window, Keeps-read_once_window, Keeps-see, Keeps-has_tx, Keeps-has_tx_on,
)
