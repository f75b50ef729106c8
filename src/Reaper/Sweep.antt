-- ===== src/Reaper/Sweep.antt =====
-- What the reaper does with one session.
use typedb_mcp.Prelude.{
  ℕ, ◌≡◌, ◌⊎◌, ◌*◌, ◌-◌, inl, inr, refl, sym, ap, ◌∙◌, String, Bool, true, false, not, ◌&&◌, ◌||◌,
  Option, none, some, List, [], ◌∷◌, ◌==◌, arith, leb, if◌then◌else◌, has, has-discard, discard,
  eq_iff, eq_refl, Bool-cases,
}
use typedb_mcp.Wire.{Env, Wire, Call, rollback, close}
use typedb_mcp.Kinds.{TxKind, read, write, schema}
use typedb_mcp.Config.{ServerConfig, idle_timeout_for}
use typedb_mcp.Tools.Transactions.Ending.{release_call, release_calls}
use typedb_mcp.Session.{SessionState, OpenTx}
use typedb_mcp.Session.Store.{
  World, done, ◌>>=◌, ◌>>◌, pure, put, lock, inside, drop, locked, lock_store, drop_store, keys,
  forget, release_open,
}
use typedb_mcp.Session.Store.Resolve.{release_open-none}
use typedb_mcp.Reaper.{unless_locked, remove, is_idle, reap_idle, purge, reap_session}

-- The seconds that the configuration leaves a transaction of that kind without activity.
abbrev pub idle_seconds : ServerConfig → TxKind → ℕ
idle_seconds c read = c.idle_timeout_read_s
idle_seconds c write = c.idle_timeout_write_s
idle_seconds c schema = c.idle_timeout_schema_s

-- Whether a transaction has been without activity that long.
unfoldable pub has_idled : Env → ℕ → OpenTx → Bool
has_idled e t tx = leb (idle_seconds e.config.server tx.kind * 1_000_000_000) (t - tx.last_activity)

pub is_idle-has_idled : (e : Env) (t : ℕ) (tx : OpenTx) → is_idle e t tx ≡ has_idled e t tx
unfolding has_idled idle_timeout_for
is_idle-has_idled e t tx = by_kind tx.kind
  where
    by_kind :
        (k : TxKind)
        → leb (idle_timeout_for e.config k) (t - tx.last_activity)
          ≡ leb (idle_seconds e.config.server k * 1_000_000_000) (t - tx.last_activity)
    by_kind read = refl
    by_kind write = refl
    by_kind schema = refl

-- Whether the call is among those made.
abbrev pub Made : Call → List Call → Type 0
Made c [] = ⊥
Made c (d ∷ ds) = (d ≡ c) ⊎ Made c ds

-- Whether a session with that deadline is over.
unfoldable pub is_over : ℕ → ℕ → Bool
is_over t expires_at = leb expires_at t

-- The transaction that a session with that deadline and that transaction should have after the round.
unfoldable pub spared : Env → ℕ → ℕ → Option OpenTx → Option OpenTx
unfolding is_over
spared e t expires_at none = none
spared e t expires_at (some tx) = if is_over t expires_at || has_idled e t tx then none else some tx

-- Session `j` after the round has dealt with the sessions of the list.
pub record Swept (e : Env) (t : ℕ) (ids : List String) (w v : World) : Type 0 where
  pub transactions :
      (j : String)
      → (v.arcs j).tx ≡ (
          if has j ids && not (has j w.held)
          then spared e t (w.arcs j).expires_at (w.arcs j).tx
          else (w.arcs j).tx)
  pub kept :
      (j : String)
      → has j v.ids ≡ (
          not (has j ids && (not (has j w.held) && is_over t (w.arcs j).expires_at)) && has j w.ids)
  pub deadlines : (j : String) → (v.arcs j).expires_at ≡ (w.arcs j).expires_at
  pub gates : (j : String) → (v.arcs j).schema_seen ≡ (w.arcs j).schema_seen
  pub released :
      (j : String) (tx : OpenTx)
      → (w.arcs j).tx ≡ some tx
      → (v.arcs j).tx ≡ none
      → Made (release_call tx) v.wire.trace
  pub earlier : (c : Call) → Made c w.wire.trace → Made c v.wire.trace
  pub held_same : v.held ≡ w.held
  pub store_same : v.store_held ≡ false

-- One session, whose lock is free, after its part of the round.
abbrev pub Sweeps : Env → ℕ → String → World → Type 0
Sweeps e t id w = (v : World) × (reap_session e t id w ≡ done tt v) × Swept e t (id ∷ []) w v

-- What `reap_idle` leaves of a transaction.
left : Env → ℕ → Option OpenTx → Option OpenTx
left e t none = none
left e t (some tx) = if is_idle e t tx then none else some tx

reap_idle_left :
    (e : Env) (t : ℕ) (s : SessionState) (x : Wire) → (reap_idle e t s x).1.tx ≡ left e t s.tx
unfolding reap_idle left
reap_idle_left e t s x = ground arith

left-spared :
    (e : Env) (t expires_at : ℕ) (o : Option OpenTx)
    → is_over t expires_at ≡ false
    → left e t o ≡ spared e t expires_at o
unfolding left spared
left-spared e t expires_at none h = refl
left-spared e t expires_at (some tx) h = rw h (rw (is_idle-has_idled e t tx) refl)

reap_idle-spared :
    (e : Env) (t : ℕ) (s : SessionState) (x : Wire)
    → is_over t s.expires_at ≡ false
    → (reap_idle e t s x).1.tx ≡ spared e t s.expires_at s.tx
unfolding reap_idle
reap_idle-spared e t s x h = reap_idle_left e t s x ∙ left-spared e t s.expires_at s.tx h

-- The calls of the reaper, where `b` says whether it releases the session's transaction.
abbrev released_calls : Bool → SessionState → List Call → List Call
released_calls b s calls = if b then release_calls s calls else calls

lost : Option OpenTx → Option OpenTx → Bool
lost none o = false
lost (some tx) none = true
lost (some tx) (some u) = false

reap_idle-released_calls :
    (e : Env) (t : ℕ) (s : SessionState) (x : Wire)
    → (reap_idle e t s x).2.trace ≡ released_calls (lost s.tx (reap_idle e t s x).1.tx) s x.trace
unfolding reap_idle rollback close lost
reap_idle-released_calls e t s x = ground arith

release_open-released_calls :
    (e : Env) (s : SessionState) (x : Wire)
    → (release_open e s x).2.trace ≡ released_calls true s x.trace
unfolding release_open rollback close
release_open-released_calls e s x = ground arith

Made-release_calls :
    (c : Call) (s : SessionState) (calls : List Call)
    → Made c calls
    → Made c (release_calls s calls)
Made-release_calls c s calls h = by_tx s.tx
  where
    by_tx :
        (o : Option OpenTx) → Made c (elim o [ none ↦ calls | some tx ↦ release_call tx ∷ calls ])
    by_tx none = h
    by_tx (some tx) = inr h

reap_idle_keeps :
    (e : Env) (t : ℕ) (s : SessionState) (x : Wire)
    → ((reap_idle e t s x).1.expires_at ≡ s.expires_at)
      × ((reap_idle e t s x).1.schema_seen ≡ s.schema_seen)
unfolding reap_idle
reap_idle_keeps e t s x = (ground arith, ground arith)

release_open_keeps :
    (e : Env) (s : SessionState) (x : Wire)
    → ((release_open e s x).1.expires_at ≡ s.expires_at)
      × ((release_open e s x).1.schema_seen ≡ s.schema_seen)
unfolding release_open
release_open_keeps e s x = (ground arith, ground arith)

over-spared :
    (e : Env) (t : ℕ) (s : SessionState)
    → is_over t s.expires_at ≡ true
    → none ≡ spared e t s.expires_at s.tx
unfolding spared
over-spared e t s h = ground arith

pub still_there : {A : Type 0} {o : Option OpenTx} {tx : OpenTx} → o ≡ some tx → o ≡ none → A
still_there {o = o} {tx = tx} n m = absurd (differ o tx n m)
  where
    differ : (o : Option OpenTx) (tx : OpenTx) → o ≡ some tx → o ≡ none → ⊥
    differ o tx n m = cc

lost_tx : (o p : Option OpenTx) (tx : OpenTx) → o ≡ some tx → p ≡ none → lost o p ≡ true
unfolding lost
lost_tx o p tx n m = ground arith

-- The calls of a session's part of the round are kept, and have the release of what was lost.
abbrev Calls : SessionState → SessionState → List Call → List Call → Type 0
Calls s s' before after =
    ((c : Call) → Made c before → Made c after)
    × ((tx : OpenTx) → s.tx ≡ some tx → s'.tx ≡ none → Made (release_call tx) after)

Made-release_call :
    (s : SessionState) (tx : OpenTx) (calls : List Call)
    → s.tx ≡ some tx
    → Made (release_call tx) (release_calls s calls)
Made-release_call s tx calls n = rw n (inl refl)

released-Calls :
    (s s' : SessionState) (before after : List Call) (b : Bool)
    → after ≡ released_calls b s before
    → ((tx : OpenTx) → s.tx ≡ some tx → s'.tx ≡ none → b ≡ true)
    → Calls s s' before after
released-Calls s s' before after true e h = (
  λ c m. rw e (Made-release_calls c s before m),
  λ tx n m. rw e (Made-release_call s tx before n),
)
released-Calls s s' before after false e h = (λ c m. rw e m, λ tx n m. absurd (differ (h tx n m)))
  where
    differ : false ≡ true → ⊥
    differ e = cc

pub sweep_locked :
    (e : Env) (t : ℕ) (id : String) (w : World)
    → w.store_held ≡ false
    → has id w.held ≡ true
    → Sweeps e t id w
unfolding reap_session unless_locked has
sweep_locked e t id w s h = (
  w,
  rw h refl,
  record {
    transactions = λ j. ground (arith, h, eq_iff id j);
    kept = λ j. ground (arith, h, eq_iff id j);
    deadlines = λ j. refl;
    gates = λ j. refl;
    released = λ j tx n m. still_there n m;
    earlier = λ c m. m;
    held_same = refl;
    store_same = s;
  },
)

one_field :
    {B : Type 0} (g : SessionState → B) (id : String) (w v : World) (s : SessionState)
    → v.arcs id ≡ s
    → ((j : String) → (id == j) ≡ false → v.arcs j ≡ w.arcs j)
    → g s ≡ g (w.arcs id)
    → (j : String) → g (v.arcs j) ≡ g (w.arcs j)
one_field g id w v s own others h j = elim (Bool-cases (id == j)) [
  | inl q ↦
      let k = (eq_iff id j).0 q in
      ap (λ i. g (v.arcs i)) (sym k) ∙ ap g own ∙ h ∙ ap (λ i. g (w.arcs i)) k
  | inr q ↦ ap g (others j q)
]

-- A session whose lock was free has got the state `s`, and the others keep theirs.
Swept-one :
    (e : Env) (t : ℕ) (id : String) (w v : World) (s : SessionState)
    → has id w.held ≡ false
    → v.arcs id ≡ s
    → ((j : String) → (id == j) ≡ false → v.arcs j ≡ w.arcs j)
    → s.tx ≡ spared e t (w.arcs id).expires_at (w.arcs id).tx
    → (s.expires_at ≡ (w.arcs id).expires_at) × (s.schema_seen ≡ (w.arcs id).schema_seen)
    → ((j : String)
        → has j v.ids ≡ (not (id == j && is_over t (w.arcs id).expires_at) && has j w.ids))
    → Calls (w.arcs id) s w.wire.trace v.wire.trace
    → v.held ≡ w.held
    → v.store_held ≡ false
    → Swept e t (id ∷ []) w v
unfolding has
Swept-one e t id w v s f own others tx same ids calls held store = record {
  transactions = λ j. elim (Bool-cases (id == j)) [
    | inl q ↦ rw (← (eq_iff id j).0 q) (rw eq_refl (rw f (ap (λ x. x.tx) own ∙ tx)))
    | inr q ↦ rw q (ap (λ x. x.tx) (others j q))
  ];
  kept = λ j. ground (arith, ids j, f, eq_iff id j);
  deadlines = one_field (λ x. x.expires_at) id w v s own others same.0;
  gates = one_field (λ x. x.schema_seen) id w v s own others same.1;
  released = λ j tx n m. elim (Bool-cases (id == j)) [
    | inl q ↦
        let k = (eq_iff id j).0 q in
        calls.1 tx (ap (λ i. (w.arcs i).tx) k ∙ n)
          (ap (λ x. x.tx) (sym own) ∙ ap (λ i. (v.arcs i).tx) k ∙ m)
    | inr q ↦ still_there n (ap (λ x. x.tx) (sym (others j q)) ∙ m)
  ];
  earlier = calls.0;
  held_same = held;
  store_same = store;
}

pub sweep_idle :
    (e : Env) (t : ℕ) (id : String) (w : World)
    → w.store_held ≡ false
    → has id w.held ≡ false
    → is_over t (w.arcs id).expires_at ≡ false
    → Sweeps e t id w
unfolding reap_session unless_locked locked lock inside drop ◌>>=◌ ◌>>◌ pure is_over put
sweep_idle e t id w s f h =
    let r = reap_idle e t (w.arcs id) w.wire in
    (
      record w { arcs = put id r.1 (put id (w.arcs id) w.arcs); wire = r.2 },
      simp (f, h, eq_refl),
      Swept-one e t id w _ r.1 f (rw eq_refl) (λ j d. simp d)
          (reap_idle-spared e t (w.arcs id) w.wire h) (reap_idle_keeps e t (w.arcs id) w.wire)
          (λ j. rw h (ground arith))
          (released-Calls (w.arcs id) r.1 w.wire.trace r.2.trace _
            (reap_idle-released_calls e t (w.arcs id) w.wire) (lost_tx (w.arcs id).tx r.1.tx))
          refl s,
    )

pub sweep_over :
    (e : Env) (t : ℕ) (id : String) (w : World)
    → w.store_held ≡ false
    → has id w.held ≡ false
    → is_over t (w.arcs id).expires_at ≡ true
    → has id w.ids ≡ true
    → Sweeps e t id w
unfolding reap_session unless_locked purge remove lock_store keys forget drop_store locked lock
    inside drop ◌>>=◌ ◌>>◌ pure is_over put
sweep_over e t id w s f h n =
    let r = release_open e (w.arcs id) w.wire in
    (
      record w {
        arcs = put id r.1 (put id (w.arcs id) w.arcs);
        ids = discard id w.ids;
        store_held = false;
        wire = r.2;
      },
      simp (s, f, h, n, eq_refl),
      Swept-one e t id w _ r.1 f (rw eq_refl) (λ j d. simp d)
          (release_open-none e (w.arcs id) w.wire ∙ over-spared e t (w.arcs id) h)
          (release_open_keeps e (w.arcs id) w.wire)
          (λ j. rw h (has-discard id j w.ids ∙ ground arith))
          (released-Calls (w.arcs id) r.1 w.wire.trace r.2.trace true
            (release_open-released_calls e (w.arcs id) w.wire) (λ tx n m. refl))
          refl refl,
    )

-- A session that has left the store meanwhile has no transaction any more.
pub sweep_gone :
    (e : Env) (t : ℕ) (id : String) (w : World)
    → w.store_held ≡ false
    → has id w.held ≡ false
    → is_over t (w.arcs id).expires_at ≡ true
    → has id w.ids ≡ false
    → (w.arcs id).tx ≡ none
    → Sweeps e t id w
unfolding reap_session unless_locked purge remove lock_store keys forget drop_store locked lock
    inside drop ◌>>=◌ ◌>>◌ pure is_over put
sweep_gone e t id w s f h n g = (
  record w { arcs = put id (w.arcs id) w.arcs; ids = discard id w.ids; store_held = false },
  simp (s, f, h, n, eq_refl),
  Swept-one e t id w _ (w.arcs id) f (rw eq_refl) (λ j d. simp d)
      (g ∙ over-spared e t (w.arcs id) h) (refl, refl)
      (λ j. rw h (has-discard id j w.ids ∙ ground arith)) (λ c m. m, λ tx n m. still_there n g) refl
      refl,
)
