-- ===== src/Reaper/Round.antt =====
-- What one round of the reaper leaves behind.
use typedb_mcp.Prelude.{
  ℕ, suc, ◌≡◌, ◌⊎◌, inl, inr, refl, ◌∙◌, String, Bool, true, false, not, ◌&&◌, ◌||◌, Option, none,
  some, List, [], ◌∷◌, ◌==◌, arith, if◌then◌else◌, has, eq_refl, Bool-cases,
}
use typedb_mcp.Wire.{Env, now}
use typedb_mcp.Session.{OpenTx}
use typedb_mcp.Session.Store.{
  World, done, ◌>>=◌, ◌>>◌, pure, calling, lock_store, drop_store, keys, all_sessions,
}
use typedb_mcp.Reaper.{reap_sessions, reap_round, reap}
use typedb_mcp.Reaper.Sweep.{
  is_over, spared, still_there, Swept, Sweeps, sweep_locked, sweep_idle, sweep_over, sweep_gone,
}

spared_again :
    (e : Env) (t x : ℕ) (o : Option OpenTx) → spared e t x (spared e t x o) ≡ spared e t x o
unfolding spared
spared_again e t x o = ground arith

-- The transaction of a session after two parts of the round.
twice :
    (e : Env) (t x : ℕ) (o : Option OpenTx) (p q h : Bool)
    → (if q && h
        then spared e t x (if (p || false) && h then spared e t x o else o)
        else (if (p || false) && h then spared e t x o else o))
      ≡ (if (p || q) && h then spared e t x o else o)
twice e t x o true true true = spared_again e t x o
twice e t x o true true false = refl
twice e t x o true false true = refl
twice e t x o true false false = refl
twice e t x o false true true = refl
twice e t x o false true false = refl
twice e t x o false false true = refl
twice e t x o false false false = refl

Swept-or :
    (e : Env) (t : ℕ) (ids : List String) (w u : World)
    → Swept e t ids w u
    → (j : String) (tx : OpenTx) → (w.arcs j).tx ≡ some tx
    → ((u.arcs j).tx ≡ none) ⊎ ((u.arcs j).tx ≡ some tx)
unfolding spared
Swept-or e t ids w u a j tx n = ground (arith, a.transactions j, n)

Swept-seq :
    (e : Env) (t : ℕ) (id : String) (ids : List String) (w u v : World)
    → Swept e t (id ∷ []) w u
    → Swept e t ids u v
    → Swept e t (id ∷ ids) w v
unfolding has
Swept-seq e t id ids w u v a b = record {
  transactions = λ j.
      b.transactions j
      ∙ rw a.held_same (
          rw (a.deadlines j) (
            rw (a.transactions j) (
              twice e t (w.arcs j).expires_at (w.arcs j).tx (id == j) (has j ids)
                (not (has j w.held)))));
  kept = λ j. b.kept j ∙ rw a.held_same (rw (a.deadlines j) (rw (a.kept j) (ground arith)));
  deadlines = λ j. b.deadlines j ∙ a.deadlines j;
  gates = λ j. b.gates j ∙ a.gates j;
  released = λ j tx n m. elim (Swept-or e t (id ∷ []) w u a j tx n) [
    | inl gone ↦ b.earlier _ (a.released j tx n gone)
    | inr still ↦ b.released j tx still m
  ];
  earlier = λ c m. b.earlier c (a.earlier c m);
  held_same = b.held_same ∙ a.held_same;
  store_same = b.store_same;
}

-- The sessions that the round has still to deal with are in the store, or have no transaction.
abbrev Pending : List String → World → Type 0
Pending ids w = (j : String) → has j ids ≡ true → (has j w.ids ≡ true) ⊎ ((w.arcs j).tx ≡ none)

Pending-seq :
    (e : Env) (t : ℕ) (id : String) (ids : List String) (w u : World)
    → Swept e t (id ∷ []) w u
    → Pending (id ∷ ids) w
    → Pending ids u
unfolding has spared
Pending-seq e t id ids w u a p j h = ground (arith, a.transactions j, a.kept j, p j)

sweep_one :
    (e : Env) (t : ℕ) (id : String) (ids : List String) (w : World)
    → w.store_held ≡ false
    → Pending (id ∷ ids) w
    → Sweeps e t id w
unfolding has
sweep_one e t id ids w s p = elim (Bool-cases (has id w.held)) [
  | inl locked_by ↦ sweep_locked e t id w s locked_by
  | inr free ↦ elim (Bool-cases (is_over t (w.arcs id).expires_at)) [
    | inr ahead ↦ sweep_idle e t id w s free ahead
    | inl over ↦ elim (Bool-cases (has id w.ids)) [
      | inl known ↦ sweep_over e t id w s free over known
      | inr gone ↦ sweep_gone e t id w s free over gone (ground (arith, p id, eq_refl id, gone))
    ]
  ]
]

sweep_all :
    (e : Env) (t : ℕ) (ids : List String) (w : World)
    → w.store_held ≡ false
    → Pending ids w
    → (v : World) × (reap_sessions e t ids w ≡ done tt v) × Swept e t ids w v
unfolding reap_sessions has ◌>>=◌ ◌>>◌
sweep_all e t [] w s p = (
  w,
  unfold pure in refl,
  record {
    transactions = λ j. refl;
    kept = λ j. refl;
    deadlines = λ j. refl;
    gates = λ j. refl;
    released = λ j tx n m. still_there n m;
    earlier = λ c m. m;
    held_same = refl;
    store_same = s;
  },
)
sweep_all e t (id ∷ ids) w s p =
    let (u, run, a) = sweep_one e t id ids w s p in
    let (v, run', b) = sweep_all e t ids u a.store_same (Pending-seq e t id ids w u a p) in
    (v, rw run run', Swept-seq e t id ids w u v a b)

-- A round at a given time.
pub round-Swept :
    (e : Env) (t : ℕ) (w : World)
    → w.store_held ≡ false
    → (v : World) × (reap_round e t w ≡ done tt v) × Swept e t w.ids w v
unfolding reap_round all_sessions lock_store keys drop_store ◌>>=◌ ◌>>◌ pure
round-Swept e t w s =
    let u : World = record w { store_held = false } in
    let (v, run, a) = sweep_all e t w.ids u refl (λ j h. inl h) in
    (
      v,
      rw s run,
      record {
        transactions = a.transactions;
        kept = a.kept;
        deadlines = a.deadlines;
        gates = a.gates;
        released = a.released;
        earlier = a.earlier;
        held_same = a.held_same;
        store_same = a.store_same;
      },
    )

-- With the store's lock free, and whatever sessions' locks are held, a round of the reaper comes to its
-- end without waiting. It leaves alone every session whose lock is held and every one that is not in the
-- store. Each other session is removed from the store exactly when its deadline has passed, and loses
-- its transaction exactly when that is so or the transaction has been idle for the timeout of its kind.
-- The server has got the call that releases each transaction that was lost: a close of a READ transaction
-- and a rollback of another. Deadlines and schema gates stay as they are.
pub reap-Swept :
    (e : Env) (w : World)
    → w.store_held ≡ false
    → (v : World) × (reap e w ≡ done tt v) × Swept e (e.clock w.wire.readings) w.ids w v
unfolding reap calling now ◌>>=◌
reap-Swept e w s =
    let (v, run, a) =
      round-Swept e (e.clock w.wire.readings)
        (record w { wire = record w.wire { readings = suc w.wire.readings } }) s in
    (
      v,
      run,
      record {
        transactions = a.transactions;
        kept = a.kept;
        deadlines = a.deadlines;
        gates = a.gates;
        released = a.released;
        earlier = a.earlier;
        held_same = a.held_same;
        store_same = a.store_same;
      },
    )
