-- ===== src/Tools/ServerInfo/Telling.antt =====
-- What `server_info` tells: the servers, and the families of tools.
use typedb_mcp.Prelude.{
  ◌≡◌, refl, ap, ◌∙◌, String, Bool, true, false, Option, some, none, List, [], if◌then◌else◌, bytes,
  has, ℕ, arith, eq_iff,
}
use typedb_mcp.Kinds.{ExecutionContext, unspecified, stdio, http}
use typedb_mcp.Config.{Config}
use typedb_mcp.Errors.{ErrorClass, upstream_unavailable, to_class}
use typedb_mcp.Wire.{Env}
use typedb_mcp.Session.{SessionSnapshot, snapshot}
use typedb_mcp.Session.Store.{World, done, ◌>>=◌, snapshot_arc, snapshot_window, put}
use typedb_mcp.Session.Store.Runs.{locked_lem}
use typedb_mcp.Session.Store.Resolve.{IsLive}
use typedb_mcp.Diagnostics.{
  DiagnosticReport, Collected, report, deadline_exceeded, Asked, expose_topology,
}
use typedb_mcp.Diagnostics.Exposure.{Exposes, collect-Told}
use typedb_mcp.Envelope.{
  CallToolResult, Payload, server_info, ServerInfo, envelope, envelope_ok, envelope_err,
}
use typedb_mcp.Router.{
  Tool, export_database, import_database, create_database, delete_database, ToolRouter, canonical,
  served_router, default_config, with_database_admin_tools, with_database_migration_tools,
  with_execution_context,
}
use typedb_mcp.Router.Offers.{route, route-raw_tools_router}
use typedb_mcp.Tools.Resolving.{entered, resolving_live}
use typedb_mcp.Tools.Discipline.Databases.{looked, put_same}
use typedb_mcp.Tools.Queries.Advice.{class_of}
use typedb_mcp.Tools.ServerInfo.{
  info, info_verdict, diagnose, diagnosis_deadline, answer_info, do_server_info,
}

-- The router has the tool under its plain name exactly if it may.
abbrev pub Offers : ToolRouter → Tool → Bool → Type 0
Offers r t b = route (bytes (canonical t)) r ≡ (if b then some t else none)

-- What is told of the families is what the router of the same handler offers.
pub record Families (r : ToolRouter) (i : ServerInfo) : Type 0 where
  pub exports : Offers r export_database i.migration
  pub imports : Offers r import_database i.migration
  pub creates : Offers r create_database i.admin
  pub deletes : Offers r delete_database i.admin

info-Families :
    (c : Config) (context : ExecutionContext) (r : DiagnosticReport)
    → Families (served_router c context) (info c context r)
unfolding served_router with_execution_context has with_database_migration_tools
    with_database_admin_tools default_config
info-Families c context r = record {
  exports = route-raw_tools_router _ export_database;
  imports = route-raw_tools_router _ import_database;
  creates = route-raw_tools_router _ create_database;
  deletes = route-raw_tools_router _ delete_database;
}

-- Where the servers may be told: the administrator has turned it on and the handler serves a known transport.
abbrev pub may_tell : Config → ExecutionContext → Bool
may_tell c unspecified = false
may_tell c stdio = c.server.expose_connection_details
may_tell c http = c.server.expose_connection_details

expose_topology-may_tell :
    (c : Config) (context : ExecutionContext)
    → expose_topology c.server.expose_connection_details context ≡ may_tell c context
unfolding expose_topology
expose_topology-may_tell c unspecified = ground arith
expose_topology-may_tell c stdio = ground arith
expose_topology-may_tell c http = ground arith

-- An answer with a report exposes the servers exactly if the configuration and the context allow it, and
-- tells the families; an answer without one is the error of an unavailable server.
abbrev pub IsInformed : Env → ExecutionContext → Option Payload → Option ErrorClass → Type 0
IsInformed e context none class = class ≡ some upstream_unavailable
IsInformed e context (some (server_info i)) class =
    Exposes (may_tell e.config context) (report i.report) []
    × Families (served_router e.config context) i
    × (class ≡ none)
IsInformed e context (some _) class = ⊥

collected-IsInformed :
    (e : Env) (context : ExecutionContext) (snap : SessionSnapshot) (c : Collected)
    → Exposes (may_tell e.config context) c []
    → let a = envelope e snap (info_verdict e.config context c) in
      IsInformed e context a.content.result (class_of a)
unfolding envelope envelope_ok envelope_err to_class
collected-IsInformed e context snap (report r) h = (h, info-Families e.config context r, refl)
collected-IsInformed e context snap deadline_exceeded h = refl

Exposes-asked :
    (expose : Bool) (c : Collected) (asked : List Asked)
    → Exposes expose c asked
    → Exposes expose c []
Exposes-asked expose deadline_exceeded asked h = tt
Exposes-asked true (report r) asked h = h
Exposes-asked false (report r) asked h = h

diagnose-Exposes :
    (e : Env) (context : ExecutionContext) (n : ℕ)
    → Exposes (may_tell e.config context) (diagnose e context n) []
unfolding diagnose
diagnose-Exposes e context n = rw (← expose_topology-may_tell e.config context) (
    Exposes-asked _ _ _
      (collect-Told (e.probe n) e.startup_version (diagnosis_deadline e.config)
        (expose_topology e.config.server.expose_connection_details context)).0)

entered_txs :
    (e : Env) (sid : String) (w : World) (j : String)
    → ((entered e sid w).arcs j).tx ≡ (w.arcs j).tx
unfolding put
entered_txs e sid w j = ground (arith, eq_iff sid j)

-- In a live session `server_info` answers without a call for transactions or data, and leaves every session's
-- transaction alone. Its report has the servers, or the error of asking for them, exactly where
-- the configuration exposes connection details and the handler serves stdio or HTTP; and the families
-- of tools that it tells are those whose tools the router of the same handler offers. Without a report
-- the answer is the error UPSTREAM_UNAVAILABLE.
pub do_server_info-IsInformed :
    (e : Env) (sid : String) (context : ExecutionContext) (w : World)
    → IsLive e sid w
    → (a : CallToolResult) × (u : World) × (do_server_info e sid context w ≡ done a u)
      × IsInformed e context a.content.result (class_of a)
      × ((j : String) → (u.arcs j).tx ≡ (w.arcs j).tx)
      × (u.wire.trace ≡ w.wire.trace)
unfolding do_server_info answer_info snapshot_arc ◌>>=◌
do_server_info-IsInformed e sid context w l =
    let start : World = entered e sid w in
    (
      envelope e (snapshot sid (start.arcs sid))
          (info_verdict e.config context (diagnose e context start.wire.readings)),
      looked sid start,
      resolving_live e sid _ w l
          ∙ rw (locked_lem sid (snapshot_window sid) start (rw l.free (unfold has in refl))) refl,
      collected-IsInformed e context (snapshot sid (start.arcs sid)) _
          (diagnose-Exposes e context start.wire.readings),
      λ j. ap (λ s. s.tx) (put_same sid start.arcs j) ∙ entered_txs e sid w j,
      refl,
    )
