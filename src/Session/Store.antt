-- ===== src/Session/Store.antt =====
-- The session store of crates/typedb-mcp-core/src/session.rs. An `Arc<Mutex<SessionState>>` is named by
-- its session's id: `arcs` is the heap of the states, also of those that have left the store, and `ids`
-- are the keys of the store's map. `held` are the sessions whose lock somebody holds, `store_held` says
-- it of the store's own lock. An operation runs until it is done or waits for a lock that is held: then
-- it is `blocked`, with the locks that it took still held. A lock that the same task holds, or one that
-- a migration job holds, keeps it waiting.
pub mod Runs
pub mod Operations
pub mod Resolve
pub mod Invalidate
use typedb_mcp.Prelude.{
  ℕ, ◌+◌, String, Bool, true, false, Option, none, some, List, [], ◌∷◌, ◌==◌, leb, if◌then◌else◌,
  has, add, discard,
}
use typedb_mcp.Coordinator.{OperationCoordinator}
use typedb_mcp.Wire.{Env, Wire, now, new_uuid}
use typedb_mcp.Session.{SessionState, OpenTx, SessionSnapshot, release, snapshot}

pub record World : Type 0 where
  pub arcs : String → SessionState
  pub ids : List String
  pub held : List String
  pub store_held : Bool
  pub coordinator : OperationCoordinator
  pub wire : Wire

pub data Outcome (A : Type 0) : Type 0 where
  done : A → World → Outcome A
  blocked : World → Outcome A

abbrev pub M : Type 0 → Type 0
M A = World → Outcome A

abbrev pub continue : {A B : Type 0} → Outcome A → (A → M B) → Outcome B
continue (done a w) f = f a w
continue (blocked w) f = blocked w

infixl 5 ◌>>=◌ ◌>>◌
unfoldable pub ◌>>=◌ : {A B : Type 0} → M A → (A → M B) → M B
◌>>=◌ m f w = continue (m w) f

unfoldable pub ◌>>◌ : {A B : Type 0} → M A → M B → M B
unfolding ◌>>=◌
m >> n = m >>= λ _. n

unfoldable pub pure : {A : Type 0} → A → M A
pure a w = done a w

-- A call of the outside world.
unfoldable pub calling : {A : Type 0} → (Wire → A × Wire) → M A
calling f w = let (a, x) = f w.wire in done a (record w { wire = x })

-- Gives a lock back: the last one taken of that name.
unfoldable pub unlock : String → List String → List String
unlock id [] = []
unlock id (j ∷ l) = if j == id then l else j ∷ unlock id l

unfoldable pub put : String → SessionState → (String → SessionState) → String → SessionState
put id s arcs j = if id == j then s else arcs j

-- `arc.lock().await`
unfoldable pub lock : String → M (Unit {0})
lock id w = if has id w.held then blocked w else done tt (record w { held = id ∷ w.held })

-- `drop` of the guard
unfoldable pub drop : String → M (Unit {0})
unfolding unlock
drop id w = done tt (record w { held = unlock id w.held })

-- What a task does while it holds the lock of a session: it reads and writes the state, and calls the
-- outside world.
abbrev pub Window : Type 0 → Type 0
Window A = SessionState → Wire → A × SessionState × Wire

unfoldable pub inside : {A : Type 0} → String → Window A → M A
unfolding put
inside id body w =
    let (a, s, x) = body (w.arcs id) w.wire in
    done a (record w { arcs = put id s w.arcs; wire = x })

-- The whole window: lock, work, drop.
unfoldable pub locked : {A : Type 0} → String → Window A → M A
unfolding lock inside drop ◌>>=◌ ◌>>◌ pure
locked id body = do lock id; a ← inside id body; drop id; pure a

-- `self.inner.lock().await`, and the drop of that guard.
unfoldable pub lock_store : M (Unit {0})
lock_store w = if w.store_held then blocked w else done tt (record w { store_held = true })

unfoldable pub drop_store : M (Unit {0})
drop_store w = done tt (record w { store_held = false })

unfoldable pub keys : M (List String)
keys w = done w.ids w

unfoldable pub forget : String → M (Unit {0})
forget id w = done tt (record w { ids = discard id w.ids })

unfoldable pub enrol : String → SessionState → M (Unit {0})
unfolding put
enrol id s w = done tt (record w { ids = add id w.ids; arcs = put id s w.arcs })

-- `SessionStore::start`
unfoldable pub start : Env → ℕ → M String
start e ttl = do
  id ← calling (new_uuid e)
  t ← calling (now e)
  lock_store
  enrol id (record { schema_seen = []; tx = none; expires_at = t + ttl })
  drop_store
  pure id

pub data Resolved : Type 0 where
  found unknown expired : Resolved

-- `state.expires_at <= now`, and the refresh of the deadline.
abbrev pub is_expired : ℕ → Window Bool
is_expired t s x = (leb s.expires_at t, s, x)

abbrev pub touch : ℕ → Window (Unit {0})
touch deadline s x = (tt, record s { expires_at = deadline }, x)

-- Takes the open transaction out of the state and releases it; an error is only logged.
unfoldable pub release_open : Env → Window (Unit {0})
unfolding release
release_open e s x = elim s.tx [
  | none ↦ (tt, s, x)
  | some tx ↦ let (r, x') = release e tx x in (tt, record s { tx = none }, x')
]

-- `SessionStore::resolve_and_touch`
unfoldable pub resolve_and_touch : Env → String → ℕ → M Resolved
resolve_and_touch e id ttl = do
  lock_store
  ids ← keys
  if has id ids
      then (do
        t ← calling (now e)
        over ← locked id (is_expired t)
        if over
            then (do forget id; drop_store; locked id (release_open e); pure expired)
            else (do locked id (touch (t + ttl)); drop_store; pure found))
      else (do drop_store; pure unknown)

abbrev pub snapshot_window : String → Window SessionSnapshot
snapshot_window id s x = (snapshot id s, s, x)

-- `SessionStore::snapshot_arc`
unfoldable pub snapshot_arc : String → M SessionSnapshot
snapshot_arc id = locked id (snapshot_window id)

-- `SessionStore::all_sessions`
unfoldable pub all_sessions : M (List String)
all_sessions = do lock_store; ids ← keys; drop_store; pure ids

abbrev pub unsee : String → Window (Unit {0})
unsee database s x = (tt, record s { schema_seen = discard database s.schema_seen }, x)

unfoldable pub unsee_except : String → String → List String → M (Unit {0})
unsee_except database except [] = pure tt
unsee_except database except (id ∷ ids) =
    let rest = unsee_except database except ids in
    if id == except then rest else (do locked id (unsee database); rest)

-- `SessionStore::invalidate_schema_seen_except`
unfoldable pub invalidate_schema_seen_except : String → String → M (Unit {0})
invalidate_schema_seen_except database except = do
  ids ← all_sessions
  unsee_except database except ids
