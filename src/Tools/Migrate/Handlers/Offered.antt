-- ===== src/Tools/Migrate/Handlers/Offered.antt =====
-- The router offers the migration tools exactly where their handlers accept a call.
use typedb_mcp.Prelude.{
  ◌≡◌, refl, sym, ap, ◌∙◌, Bool, true, false, ◌&&◌, some, none, bytes, has, if◌then◌else◌, arith,
}
use typedb_mcp.Kinds.{ExecutionContext, is_stdio}
use typedb_mcp.Config.{Config}
use typedb_mcp.Router.{
  export_database, canonical, served_router, default_config, with_database_admin_tools,
  with_database_migration_tools, with_execution_context,
}
use typedb_mcp.Router.Offers.{route, route-raw_tools_router}
use typedb_mcp.Tools.Migrate.Handlers.{migration_allowed}

and_comm : (a b : Bool) → (a && b) ≡ (b && a)
and_comm a b = ground arith

module _ (c : Config) (context : ExecutionContext) where
  offered-export :
      route (bytes (canonical export_database)) (served_router c context)
      ≡ (if migration_allowed c context then some export_database else none)
  unfolding served_router with_execution_context has with_database_migration_tools
      with_database_admin_tools default_config
  offered-export =
      route-raw_tools_router _ export_database
      ∙ ap (λ b. if b then some export_database else none)
          (and_comm c.server.enable_database_migration_tools (is_stdio context))

  offered_is_allowed :
      (allowed : Bool)
      → (if allowed then some export_database else none) ≡ some export_database
      → allowed ≡ true
  offered_is_allowed true h = refl
  offered_is_allowed false h = cc

  -- A handler whose router offers `export_database` accepts the call.
  pub export_offered :
      route (bytes (canonical export_database)) (served_router c context) ≡ some export_database
      → migration_allowed c context ≡ true
  export_offered h = offered_is_allowed _ (sym offered-export ∙ h)
