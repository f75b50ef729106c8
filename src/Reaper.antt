-- ===== src/Reaper.antt =====
-- `run_reaper` of crates/typedb-mcp-core/src/session.rs. The sleep between two rounds is known
-- by the times at which the rounds start, and nothing that is awaited lies between the two `try_lock` of a session, so both find the
-- lock alike.
pub mod Sweep
pub mod Round
pub mod Loop
use typedb_mcp.Prelude.{
  ℕ, ◌-◌, ◌/◌, String, Bool, true, false, Option, none, some, List, [], ◌∷◌, leb, if◌then◌else◌,
  has,
}
use Prim.Native.Nat.{max}
use typedb_mcp.Config.{from_secs, idle_timeout_for}
use typedb_mcp.Wire.{Env, now}
use typedb_mcp.Session.{SessionState, OpenTx, release}
use typedb_mcp.Session.Store.{
  World, done, M, ◌>>=◌, ◌>>◌, pure, calling, Window, locked, lock_store, drop_store, keys, forget,
  is_expired, release_open, all_sessions,
}

-- `let Ok(..) = arc.try_lock() else { continue }`
unfoldable pub unless_locked : String → M (Unit {0}) → M (Unit {0})
unless_locked id m w = if has id w.held then done tt w else m w

-- `SessionStore::remove`: whether the session was there.
unfoldable pub remove : String → M Bool
remove id = do lock_store; ids ← keys; forget id; drop_store; pure (has id ids)

-- `now.duration_since(tx.last_activity) >= kind_timeout`
abbrev pub is_idle : Env → ℕ → OpenTx → Bool
is_idle e t tx = leb (idle_timeout_for e.config tx.kind) (t - tx.last_activity)

unfoldable pub reap_idle : Env → ℕ → Window (Unit {0})
unfolding release
reap_idle e t s x = elim s.tx [
  | none ↦ (tt, s, x)
  | some tx ↦
      if is_idle e t tx
      then (let (r, x') = release e tx x in (tt, record s { tx = none }, x'))
      else (tt, s, x)
]

unfoldable pub purge : Env → String → M (Unit {0})
purge e id = do there ← remove id; if there then locked id (release_open e) else pure tt

unfoldable pub reap_session : Env → ℕ → String → M (Unit {0})
reap_session e t id =
    unless_locked id
      (do over ← locked id (is_expired t); if over then purge e id else locked id (reap_idle e t))

unfoldable pub reap_sessions : Env → ℕ → List String → M (Unit {0})
reap_sessions e t [] = pure tt
reap_sessions e t (id ∷ ids) = do reap_session e t id; reap_sessions e t ids

-- One round, at the time that it reads first.
unfoldable pub reap_round : Env → ℕ → M (Unit {0})
reap_round e t = do ids ← all_sessions; reap_sessions e t ids

unfoldable pub reap : Env → M (Unit {0})
unfolding reap_round
reap e = do t ← calling (now e); reap_round e t

-- `(tick_hint / 4).max(Duration::from_secs(5))`
unfoldable pub tick : ℕ → ℕ
tick tick_hint = max (tick_hint / 4) (from_secs 5)

-- The loop of `run_reaper`, by the times of its rounds.
unfoldable pub run_reaper : Env → List ℕ → M (Unit {0})
unfolding reap_round
run_reaper e [] = pure tt
run_reaper e (t ∷ ts) = do reap_round e t; run_reaper e ts
