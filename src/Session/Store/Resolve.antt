-- ===== src/Session/Store/Resolve.antt =====
-- What `resolve_and_touch` does, on each of its branches.
use typedb_mcp.Prelude.{
  ℕ, suc, ◌+◌, ◌≡◌, refl, String, true, false, none, [], ◌==◌, arith, leb, has, has-discard,
  discard, eq_refl, not, ◌&&◌,
}
use typedb_mcp.Wire.{Env, Wire, now}
use typedb_mcp.Session.{SessionState}
use typedb_mcp.Session.Store.{
  World, done, blocked, ◌>>=◌, ◌>>◌, pure, calling, put, lock, inside, drop, locked, lock_store,
  drop_store, keys, forget, found, unknown, expired, release_open, resolve_and_touch,
}

-- An unknown id changes nothing.
pub resolve_unknown :
    (e : Env) (id : String) (ttl : ℕ) (w : World)
    → w.store_held ≡ false
    → has id w.ids ≡ false
    → resolve_and_touch e id ttl w ≡ done unknown (record w { store_held = false })
unfolding resolve_and_touch lock_store drop_store keys ◌>>=◌ ◌>>◌ pure
resolve_unknown e id ttl w s n = simp (s, n)

-- The session's lock and the store's are free, the session is in the store, and its deadline lies ahead.
pub record IsLive (e : Env) (id : String) (w : World) : Type 0 where
  pub free : w.held ≡ []
  pub store : w.store_held ≡ false
  pub known : has id w.ids ≡ true
  pub ahead : leb (w.arcs id).expires_at (e.clock w.wire.readings) ≡ false

-- The state after a live session was resolved.
abbrev pub touched : Env → String → ℕ → World → World
touched e id ttl w = record w {
  arcs =
      put id (record (w.arcs id) { expires_at = e.clock w.wire.readings + ttl })
        (put id (w.arcs id) w.arcs);
  store_held = false;
  wire = record w.wire { readings = suc w.wire.readings };
}

pub resolve_touched :
    (e : Env) (id : String) (ttl : ℕ) (w : World)
    → IsLive e id w
    → resolve_and_touch e id ttl w ≡ done found (touched e id ttl w)
unfolding resolve_and_touch lock_store drop_store keys calling now locked lock inside drop has ◌>>=◌
    ◌>>◌ pure put
resolve_touched e id ttl w l = simp (l.store, l.known, l.free, l.ahead, eq_refl)

-- A live session is found: its deadline moves to one TTL from now. Nothing else of any session changes,
-- no call goes to the server, and no lock is left held.
pub resolve_found :
    (e : Env) (id : String) (ttl : ℕ) (w : World)
    → IsLive e id w
    → (v : World) × (resolve_and_touch e id ttl w ≡ done found v)
      × (v.arcs id ≡ record (w.arcs id) { expires_at = e.clock w.wire.readings + ttl })
      × ((j : String) → (id == j) ≡ false → v.arcs j ≡ w.arcs j)
      × (v.ids ≡ w.ids)
      × (v.held ≡ [])
      × (v.store_held ≡ false)
      × (v.wire.trace ≡ w.wire.trace)
unfolding put
resolve_found e id ttl w l = (
  touched e id ttl w,
  resolve_touched e id ttl w l,
  rw eq_refl,
  λ j d. simp d,
  refl,
  l.free,
  refl,
  refl,
)

pub release_open-none : (e : Env) (s : SessionState) (x : Wire) → (release_open e s x).1.tx ≡ none
unfolding release_open
release_open-none e s x = ground arith

-- With the locks of the store and of the session free, a session of the store whose deadline has
-- passed is gone from the store, and no other is. Its transaction is released and taken out of its
-- state, and no other state changes.
pub resolve_expired :
    (e : Env) (id : String) (ttl : ℕ) (w : World)
    → w.store_held ≡ false
    → has id w.ids ≡ true
    → has id w.held ≡ false
    → leb (w.arcs id).expires_at (e.clock w.wire.readings) ≡ true
    → let r = release_open e (w.arcs id) (record w.wire { readings = suc w.wire.readings }) in
      (v : World) × (resolve_and_touch e id ttl w ≡ done expired v)
      × ((j : String) → has j v.ids ≡ (not (id == j) && has j w.ids))
      × (v.arcs id ≡ r.1)
      × (v.wire ≡ r.2)
      × ((v.arcs id).tx ≡ none)
      × ((j : String) → (id == j) ≡ false → v.arcs j ≡ w.arcs j)
      × (v.held ≡ w.held)
      × (v.store_held ≡ false)
unfolding resolve_and_touch lock_store drop_store keys calling now locked lock inside drop forget
    ◌>>=◌ ◌>>◌ pure put
resolve_expired e id ttl w s n h t =
    let r : (Unit {0}) × SessionState × Wire =
      release_open e (w.arcs id) (record w.wire { readings = suc w.wire.readings }) in
    (
      record w {
        arcs = put id r.1 (put id (w.arcs id) w.arcs);
        ids = discard id w.ids;
        store_held = false;
        wire = r.2;
      },
      simp (s, n, h, t, eq_refl),
      λ j. has-discard id j w.ids,
      rw eq_refl,
      refl,
      rw eq_refl (release_open-none e (w.arcs id) _),
      λ j d. simp d,
      refl,
      refl,
    )

-- A session of the store whose lock somebody holds stalls the store: with the lock of the store
-- free, the call for that session waits with this lock taken, no state has changed and no call was
-- made, and from then on the call for any session waits.
pub resolve_stalls :
    (e : Env) (id : String) (ttl : ℕ) (w : World)
    → w.store_held ≡ false
    → has id w.ids ≡ true
    → has id w.held ≡ true
    → (v : World) × (resolve_and_touch e id ttl w ≡ blocked v)
      × (v.arcs ≡ w.arcs)
      × (v.wire.trace ≡ w.wire.trace)
      × ((j : String) → resolve_and_touch e j ttl v ≡ blocked v)
unfolding resolve_and_touch lock_store drop_store keys calling now locked lock ◌>>=◌ ◌>>◌ pure
resolve_stalls e id ttl w s n h = (
  record w { store_held = true; wire = record w.wire { readings = suc w.wire.readings } },
  simp (s, n, h),
  refl,
  refl,
  λ j. refl,
)
