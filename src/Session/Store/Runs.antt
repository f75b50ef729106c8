-- ===== src/Session/Store/Runs.antt =====
-- An invariant of the server process, and a rule for each way to build an operation. An operation that
-- `Runs` from a state with no lock of a session held never waits for a lock, and keeps the invariant.
use typedb_mcp.Prelude.{
  ◌≡◌, ◌≢◌, refl, String, Bool, true, false, Option, none, some, [], ◌==◌, All, if◌then◌else◌,
  eq_refl, has, Bool-cases, inl, inr,
}
use typedb_mcp.Kinds.{read}
use typedb_mcp.Wire.{Wire, Call, commits, rolls_back, closes}
use typedb_mcp.Session.{OpenTx, SessionState}
use typedb_mcp.Session.Store.{
  World, Outcome, done, blocked, M, ◌>>=◌, ◌>>◌, pure, calling, continue, put, Window, locked,
  lock_store, drop_store, keys, forget, enrol,
}

-- What the session says of its transaction is what the driver's transaction is.
abbrev pub IsFaithful : Option OpenTx → Type 0
IsFaithful none = Unit {0}
IsFaithful (some tx) = (tx.transaction.kind ≡ tx.kind) × (tx.transaction.database ≡ tx.database)

-- READ transactions are closed, and never committed or rolled back; the others are never closed.
abbrev pub IsLawful : Call → Type 0
IsLawful (commits t) = t.kind ≢ read
IsLawful (rolls_back t) = t.kind ≢ read
IsLawful (closes t) = t.kind ≡ read
IsLawful _ = Unit {0}

-- `b` says whether the store's own lock is held.
pub record Inv (b : Bool) (w : World) : Type 0 where
  pub free : w.held ≡ []
  pub store : w.store_held ≡ b
  pub faithful : (id : String) → IsFaithful (w.arcs id).tx
  pub lawful : All IsLawful w.wire.trace

abbrev pub Post : {A : Type 0} → (World → Type 0) → Outcome A → Type 0
Post P (done a w) = P w
Post P (blocked w) = ⊥

pub record Runs {A : Type 0} (b c : Bool) (m : M A) : Type 0 where
  pub at : (w : World) → Inv b w → Post (Inv c) (m w)

-- What a window does to a faithful session and a lawful trace.
pub record Keeps {A : Type 0} (body : Window A) : Type 0 where
  pub at :
      (s : SessionState) (x : Wire)
      → IsFaithful s.tx
      → All IsLawful x.trace
      → IsFaithful (body s x).1.tx × All IsLawful (body s x).2.trace

-- A window over a session whose lock is free runs at once, and gives the lock back.
pub locked_lem :
    {A : Type 0} (id : String) (body : Window A) (w : World)
    → has id w.held ≡ false
    → locked id body w
      ≡ done (body (w.arcs id) w.wire).0 (record w {
        arcs = put id (body (w.arcs id) w.wire).1 w.arcs;
        wire = (body (w.arcs id) w.wire).2;
      })
unfolding locked
locked_lem id body w f = simp (f, eq_refl)

-- A window over a session whose lock is held waits.
pub locked_blocked :
    {A : Type 0} (id : String) (body : Window A) (w : World)
    → has id w.held ≡ true
    → locked id body w ≡ blocked w
unfolding locked
locked_blocked id body w f = simp f

put-IsFaithful :
    (id : String) (s : SessionState) (arcs : String → SessionState)
    → IsFaithful s.tx
    → ((j : String) → IsFaithful (arcs j).tx)
    → (j : String) → IsFaithful (put id s arcs j).tx
unfolding put
put-IsFaithful id s arcs h k j = elim (Bool-cases (id == j)) [ inl e ↦ rw e h | inr e ↦ rw e (k j) ]

module _ {A : Type 0} {b : Bool} where
  pub Runs-pure : (a : A) → Runs b b (pure a)
  unfolding pure
  Runs-pure a = record { at = λ w h. h }

  pub Runs-if :
      {c : Bool} (t : Bool) (m n : M A) → Runs b c m → Runs b c n → Runs b c (if t then m else n)
  Runs-if true m n km kn = km
  Runs-if false m n km kn = kn

  pub Runs-locked : (id : String) (body : Window A) → Keeps body → Runs b b (locked id body)
  Runs-locked id body k = record {
    at = λ w h.
        let r = k.at (w.arcs id) w.wire (h.faithful id) h.lawful in
        rw (locked_lem id body w (rw h.free (unfold has in refl))) (record {
          free = h.free;
          store = h.store;
          faithful = put-IsFaithful id _ w.arcs r.0 h.faithful;
          lawful = r.1;
        });
  }

  pub Runs-calling :
      (f : Wire → A × Wire)
      → ((x : Wire) → All IsLawful x.trace → All IsLawful (f x).1.trace)
      → Runs b b (calling f)
  unfolding calling
  Runs-calling f k = record {
    at = λ w h. record {
      free = h.free;
      store = h.store;
      faithful = h.faithful;
      lawful = k w.wire h.lawful;
    };
  }

module _ {A B : Type 0} {c d : Bool} where
  continue-Post :
      (r : Outcome A) (f : A → M B)
      → Post (Inv c) r
      → ((a : A) → Runs c d (f a))
      → Post (Inv d) (continue r f)
  continue-Post (done a w) f h k = (k a).at w h
  continue-Post (blocked w) f h k = h

module _ {A B : Type 0} {b d : Bool} where
  pub Runs-bind :
      (m : M A) (f : A → M B) → Runs b b m → ((a : A) → Runs b d (f a)) → Runs b d (m >>= f)
  unfolding ◌>>=◌
  Runs-bind m f km kf = record { at = λ w h. continue-Post (m w) f (km.at w h) kf }

  pub Runs-seq : (m : M A) (n : M B) → Runs b b m → Runs b d n → Runs b d (m >> n)
  unfolding ◌>>◌
  Runs-seq m n km kn = Runs-bind m (λ _. n) km (λ _. kn)

-- Between these two the store's lock is held.
pub Runs-lock_store :
    {A : Type 0} {d : Bool} (n : M A) → Runs true d n → Runs false d (lock_store >> n)
unfolding lock_store ◌>>◌
Runs-lock_store n k = record {
  at = λ w h.
      rw h.store
        (k.at _ (record { free = h.free; store = refl; faithful = h.faithful; lawful = h.lawful }));
}

pub Runs-drop_store :
    {A : Type 0} {b d : Bool} (n : M A) → Runs false d n → Runs b d (drop_store >> n)
unfolding drop_store ◌>>◌
Runs-drop_store n k = record {
  at = λ w h.
      k.at _ (record { free = h.free; store = refl; faithful = h.faithful; lawful = h.lawful });
}

pub Runs-keys : {b : Bool} → Runs b b keys
unfolding keys
Runs-keys = record { at = λ w h. h }

pub Runs-forget : {b : Bool} (id : String) → Runs b b (forget id)
unfolding forget
Runs-forget id = record {
  at = λ w h. record { free = h.free; store = h.store; faithful = h.faithful; lawful = h.lawful };
}

pub Runs-enrol :
    {b : Bool} (id : String) (s : SessionState) → IsFaithful s.tx → Runs b b (enrol id s)
unfolding enrol
Runs-enrol id s k = record {
  at = λ w h. record {
    free = h.free;
    store = h.store;
    faithful = put-IsFaithful id s w.arcs k h.faithful;
    lawful = h.lawful;
  };
}

pub ruleset runs_rules = (
  Runs-pure, Runs-if, Runs-locked, Runs-calling, Runs-bind, Runs-seq, Runs-lock_store,
  Runs-drop_store, Runs-keys, Runs-forget, Runs-enrol,
)
