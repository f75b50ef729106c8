-- ===== src/Session/Store/Operations.antt =====
-- The operations of the session store keep the invariant and wait for nobody.
use typedb_mcp.Prelude.{ℕ, String, Bool, false, List, [], ◌∷◌, arith}
use typedb_mcp.Wire.{Env, now, new_uuid, rollback, close}
use typedb_mcp.Session.Store.{
  calling, start, resolve_and_touch, snapshot_arc, all_sessions, unsee, unsee_except,
  invalidate_schema_seen_except, is_expired, touch, release_open, snapshot_window,
}
use typedb_mcp.Session.Store.Runs.{IsFaithful, IsLawful, Runs, Keeps, Runs-calling, runs_rules}

Keeps-is_expired : (t : ℕ) → Keeps (is_expired t)
Keeps-is_expired t = record { at = λ s x h l. (h, l) }

Keeps-touch : (t : ℕ) → Keeps (touch t)
Keeps-touch t = record { at = λ s x h l. (h, l) }

pub Keeps-unsee : (database : String) → Keeps (unsee database)
Keeps-unsee database = record { at = λ s x h l. (h, l) }

Keeps-snapshot : (id : String) → Keeps (snapshot_window id)
Keeps-snapshot id = record { at = λ s x h l. (h, l) }

-- A release closes a READ transaction and rolls the others back.
pub Keeps-release_open : (e : Env) → Keeps (release_open e)
unfolding release_open rollback close
Keeps-release_open e = record { at = λ s x h l. ground arith }

Runs-now : {b : Bool} (e : Env) → Runs b b (calling (now e))
unfolding now
Runs-now e = Runs-calling _ (λ x l. l)

Runs-new_uuid : {b : Bool} (e : Env) → Runs b b (calling (new_uuid e))
unfolding new_uuid
Runs-new_uuid e = Runs-calling _ (λ x l. l)

ruleset store_steps = (
  runs_rules, Keeps-is_expired, Keeps-touch, Keeps-unsee, Keeps-snapshot, Keeps-release_open,
  Runs-now, Runs-new_uuid,
)

pub Runs-start : (e : Env) (ttl : ℕ) → Runs false false (start e ttl)
unfolding start
Runs-start e ttl = search store_steps depth 12

pub Runs-resolve_and_touch :
    (e : Env) (id : String) (ttl : ℕ) → Runs false false (resolve_and_touch e id ttl)
unfolding resolve_and_touch
Runs-resolve_and_touch e id ttl = search store_steps depth 20

pub Runs-snapshot_arc : {b : Bool} (id : String) → Runs b b (snapshot_arc id)
unfolding snapshot_arc
Runs-snapshot_arc id = search store_steps

pub Runs-all_sessions : Runs false false all_sessions
unfolding all_sessions
Runs-all_sessions = search store_steps depth 9

Runs-unsee_except :
    (database except : String) (ids : List String)
    → Runs false false (unsee_except database except ids)
unfolding unsee_except
Runs-unsee_except database except [] = search store_steps
Runs-unsee_except database except (id ∷ ids) =
    let rest = Runs-unsee_except database except ids in search store_steps

pub Runs-invalidate :
    (database except : String) → Runs false false (invalidate_schema_seen_except database except)
unfolding invalidate_schema_seen_except
Runs-invalidate database except = search (store_steps, Runs-all_sessions, Runs-unsee_except)

pub ruleset store_rules = (
  runs_rules, Runs-start, Runs-resolve_and_touch, Runs-snapshot_arc, Runs-all_sessions,
  Runs-invalidate, Keeps-unsee,
)
