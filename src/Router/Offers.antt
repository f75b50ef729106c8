-- ===== src/Router/Offers.antt =====
-- Which tools the router offers, and under which names.
use typedb_mcp.Prelude.{
  ℕ, ◌≡◌, refl, sym, ap, ◌∙◌, Bool, true, false, not, ◌&&◌, ◌||◌, Option, none, some, List, [], ◌∷◌,
  ◌++◌, arith, if◌then◌else◌, has, bytes, same_bytes, same_bytes-eq,
}
use typedb_mcp.Kinds.{is_stdio}
use typedb_mcp.Router.{
  Tool, canonical, RawToolsConfig, prefixed, resolve_name, ToolRouter, add_route, add_routes,
  default_tools, migration_tools, admin_tools, raw_tools_router, start_session, list_databases,
  get_schema, open_read, open_write, open_schema, query, checkpoint, commit, rollback, read_once,
  server_info, export_database, import_database, create_database, delete_database,
}

-- The tool that a request by name reaches.
unfoldable pub route : List ℕ → ToolRouter → Option Tool
route name [] = none
route name ((m, t) ∷ r) = let rest = route name r in if same_bytes m name then some t else rest

abbrev name_of : Tool → List ℕ
name_of t = bytes (canonical t)

abbrev named : List Tool → ToolRouter
named [] = []
named (t ∷ ts) = (name_of t, t) ∷ named ts

abbrev all_tools : List Tool
all_tools = default_tools ++ (migration_tools true ++ admin_tools true)

route-named : (t : Tool) → route (name_of t) (named all_tools) ≡ some t
unfolding route
route-named start_session = refl
route-named list_databases = refl
route-named get_schema = refl
route-named open_read = refl
route-named open_write = refl
route-named open_schema = refl
route-named query = refl
route-named checkpoint = refl
route-named commit = refl
route-named rollback = refl
route-named read_once = refl
route-named server_info = refl
route-named export_database = refl
route-named import_database = refl
route-named create_database = refl
route-named delete_database = refl

same_tool : (u t : Tool) → same_bytes (name_of u) (name_of t) ≡ true → some u ≡ some t
same_tool u t h =
    sym (route-named u)
    ∙ ap (λ n. route n (named all_tools)) (same_bytes-eq (name_of u) (name_of t) h)
    ∙ route-named t

same_bytes-append : (p a b : List ℕ) → same_bytes (p ++ a) (p ++ b) ≡ same_bytes a b
same_bytes-append [] a b = refl
same_bytes-append (x ∷ p) a b = ground (arith, same_bytes-append p a b)

same_bytes-prefixed :
    (p : Option (List ℕ)) (u t : Tool)
    → same_bytes (prefixed p (canonical u)) (prefixed p (canonical t))
      ≡ same_bytes (name_of u) (name_of t)
same_bytes-prefixed none u t = refl
same_bytes-prefixed (some p) u t = same_bytes-append p (name_of u) (name_of t)

abbrev listed : Tool → List Tool → Bool
listed t [] = false
listed t (u ∷ us) = same_bytes (name_of u) (name_of t) || listed t us

abbrev pub full_name : RawToolsConfig → Tool → List ℕ
full_name c t = prefixed c.prefix (canonical t)

same_omit :
    (c : RawToolsConfig) (u t : Tool)
    → some u ≡ some t
    → has (canonical u) c.omit ≡ has (canonical t) c.omit
same_omit c u t h = ap (λ o. has_of o) h
  where
    has_of : Option Tool → Bool
    has_of none = true
    has_of (some v) = has (canonical v) c.omit

route-add_route :
    (o : Bool) (m n : List ℕ) (u : Tool) (r : ToolRouter)
    → route n (add_route (if o then none else some m) u r)
      ≡ (if not o && same_bytes m n then some u else route n r)
unfolding route
route-add_route true m n u r = refl
route-add_route false m n u r = refl

merge :
    (same o o' ls : Bool) (x y rest : Option Tool)
    → (same ≡ true → x ≡ y)
    → (same ≡ true → o ≡ o')
    → (if not o && same then x else if not o' && ls then y else rest)
      ≡ (if not o' && (same || ls) then y else rest)
merge true o o' ls x y rest h g = rw (h refl) (rw (g refl) (ground arith))
merge false o o' ls x y rest h g = ground arith

-- A block of routes answers for its tools that are not omitted, and leaves the others to what is behind.
route-add_routes :
    (c : RawToolsConfig) (t : Tool) (ts : List Tool) (r : ToolRouter)
    → route (full_name c t) (add_routes c ts r)
      ≡ (if not (has (canonical t) c.omit) && listed t ts then some t else route (full_name c t) r)
unfolding add_routes resolve_name
route-add_routes c t [] r = ground arith
route-add_routes c t (u ∷ us) r =
    route-add_route (has (canonical u) c.omit) (full_name c u) (full_name c t) u (add_routes c us r)
    ∙ ap
        (λ same.
          if not (has (canonical u) c.omit) && same
          then some u
          else route (full_name c t) (add_routes c us r))
        (same_bytes-prefixed c.prefix u t)
    ∙ ap
        (λ rest.
          if not (has (canonical u) c.omit) && same_bytes (name_of u) (name_of t)
          then some u
          else rest)
        (route-add_routes c t us r)
    ∙ merge (same_bytes (name_of u) (name_of t)) (has (canonical u) c.omit)
        (has (canonical t) c.omit) (listed t us) (some u) (some t) (route (full_name c t) r)
        (same_tool u t) (λ h. same_omit c u t (same_tool u t h))

-- Which tools a configuration turns on.
abbrev pub enabled : RawToolsConfig → Tool → Bool
enabled c export_database = c.include_database_migration && is_stdio c.execution_context
enabled c import_database = c.include_database_migration && is_stdio c.execution_context
enabled c create_database = c.include_database_admin
enabled c delete_database = c.include_database_admin
enabled c _ = true

abbrev lists : Bool → Bool → Bool → Tool → Option Tool
lists kept migration admin t =
    if kept && listed t default_tools
    then some t
    else if kept && listed t (migration_tools migration)
    then some t
    else if kept && listed t (admin_tools admin)
    then some t
    else none

lists-enabled :
    (c : RawToolsConfig) (kept : Bool) (t : Tool)
    → lists kept
        (c.include_database_migration && is_stdio c.execution_context)
        c.include_database_admin
        t
      ≡ (if kept && enabled c t then some t else none)
lists-enabled c kept start_session = ground arith
lists-enabled c kept list_databases = ground arith
lists-enabled c kept get_schema = ground arith
lists-enabled c kept open_read = ground arith
lists-enabled c kept open_write = ground arith
lists-enabled c kept open_schema = ground arith
lists-enabled c kept query = ground arith
lists-enabled c kept checkpoint = ground arith
lists-enabled c kept commit = ground arith
lists-enabled c kept rollback = ground arith
lists-enabled c kept read_once = ground arith
lists-enabled c kept server_info = ground arith
lists-enabled c kept export_database = ground arith
lists-enabled c kept import_database = ground arith
lists-enabled c kept create_database = ground arith
lists-enabled c kept delete_database = ground arith

-- A request for a tool by its name behind the prefix reaches that tool exactly when the tool is not
-- omitted and is turned on: the migration tools by their flag and on stdio only, the admin tools by
-- theirs, every other tool always. Else it reaches no tool.
pub route-raw_tools_router :
    (c : RawToolsConfig) (t : Tool)
    → route (full_name c t) (raw_tools_router c)
      ≡ (if not (has (canonical t) c.omit) && enabled c t then some t else none)
unfolding raw_tools_router route
route-raw_tools_router c t =
    let kept = not (has (canonical t) c.omit) in
    let migration = c.include_database_migration && is_stdio c.execution_context in
    let admin = c.include_database_admin in
    let admin_routes = add_routes c (admin_tools admin) [] in
    route-add_routes c t default_tools (add_routes c (migration_tools migration) admin_routes)
    ∙ ap (λ rest. if kept && listed t default_tools then some t else rest)
        (route-add_routes c t (migration_tools migration) admin_routes
          ∙ ap (λ rest. if kept && listed t (migration_tools migration) then some t else rest)
              (route-add_routes c t (admin_tools admin) []))
    ∙ lists-enabled c kept t
