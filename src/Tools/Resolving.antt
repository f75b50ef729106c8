-- ===== src/Tools/Resolving.antt =====
-- What a handler starts from when the session is live, and what it gets otherwise.
use typedb_mcp.Prelude.{◌≡◌, String, false, has}
use typedb_mcp.Errors.{session_unknown}
use typedb_mcp.Config.{session_ttl}
use typedb_mcp.Wire.{Env}
use typedb_mcp.Session.Store.{World, M, done, ◌>>=◌, pure}
use typedb_mcp.Session.Store.Resolve.{IsLive, touched, resolve_touched, resolve_unknown}
use typedb_mcp.Envelope.{CallToolResult, envelope_state_error_no_session, on_session_unknown}
use typedb_mcp.Tools.{resolving}

-- The state in which the handler of a live session works.
abbrev pub entered : Env → String → World → World
entered e sid = touched e sid (session_ttl e.config)

pub resolving_live :
    (e : Env) (sid : String) (k : M CallToolResult) (w : World)
    → IsLive e sid w
    → resolving e sid k w ≡ k (entered e sid w)
unfolding resolving ◌>>=◌
resolving_live e sid k w l = rw (resolve_touched e sid (session_ttl e.config) w l)

-- With the lock of the store free, a request whose session is not in the store is answered with
-- SESSION_UNKNOWN and changes nothing, whatever the tool.
pub resolving_unknown :
    (e : Env) (sid : String) (k : M CallToolResult) (w : World)
    → w.store_held ≡ false
    → has sid w.ids ≡ false
    → resolving e sid k w
      ≡ done
          (envelope_state_error_no_session session_unknown on_session_unknown)
          (record w { store_held = false })
unfolding resolving ◌>>=◌ pure
resolving_unknown e sid k w s n = rw (resolve_unknown e sid (session_ttl e.config) w s n)
