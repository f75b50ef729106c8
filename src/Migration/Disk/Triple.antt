-- ===== src/Migration/Disk/Triple.antt =====
-- What a run does to the world, whether it returns or fails.
use mathlib.Core.Path.{subst}
use typedb_mcp.Prelude.{String, ◌≡◌, refl}
use typedb_mcp.Migration.Disk.{
  Result, returned, raised, System, MigrationError, Process, Io, continue, recover, wrapped, ◌>>=◌,
  ◌>>◌, pure, fail, look, act, attempt, on_error, ignore, ask, fetch_add,
}

abbrev Holds :
    (s : System) {A : Type 0}
    → Result MigrationError A × Process s
    → (A → s.World → Type 0)
    → (s.World → Type 0)
    → Type 0
Holds s (returned a, p) Q E = Q a p.world
Holds s (raised e, p) Q E = E p.world

-- From a world with `P` the run ends in one with `Q` for its value or, if it fails, in one with `E`.
pub record Does (s : System) {A : Type 0} (P : s.World → Type 0) (m : Io s A)
    (Q : A → s.World → Type 0) (E : s.World → Type 0) : Type 0 where
  pub run : (p : Process s) → P p.world → Holds s (m p) Q E

module _ {s : System} {A B : Type 0} {P E : s.World → Type 0} {Q : A → s.World → Type 0}
    {R : B → s.World → Type 0} where
  pub bind :
      {m : Io s A} {k : A → Io s B}
      → Does s P m Q E
      → ((a : A) → Does s (Q a) (k a) R E)
      → Does s P (m >>= k) R E
  unfolding ◌>>=◌
  bind {m} {k} first next = record { run = λ p h. split (m p) (first.run p h) }
    where
      split : (r : Result MigrationError A × Process s) → Holds s r Q E → Holds s (continue r k) R E
      split (returned a, p) h = (next a).run p h
      split (raised e, p) h = h

module _ {s : System} {A B : Type 0} {P Q E : s.World → Type 0} {R : B → s.World → Type 0} where
  pub before :
      {m : Io s A} {k : Io s B} → Does s P m (λ _. Q) E → Does s Q k R E → Does s P (m >> k) R E
  unfolding ◌>>◌
  before {m} {k} first next = bind first (λ _. next)

module _ {s : System} {A : Type 0} {P E : s.World → Type 0} {Q : A → s.World → Type 0} where
  pub does_pure : (a : A) → ((w : s.World) → P w → Q a w) → Does s P (pure a) Q E
  unfolding pure
  does_pure a h = record { run = λ p g. h p.world g }

  pub does_fail : (e : MigrationError) → ((w : s.World) → P w → E w) → Does s P (fail e) Q E
  unfolding fail
  does_fail e h = record { run = λ p g. h p.world g }

  pub does_look :
      (wrap : String → MigrationError) (f : s.World → Result String A)
      → ((w : s.World) (a : A) → P w → f w ≡ returned a → Q a w)
      → ((w : s.World) → P w → E w)
      → Does s P (look wrap f) Q E
  unfolding look
  does_look wrap f good bad = record { run = λ p h. split p h (f p.world) refl }
    where
      split :
          (p : Process s)
          → P p.world
          → (r : Result String A) → f p.world ≡ r
          → Holds s (wrapped wrap r, p) Q E
      split p h (returned a) e = good p.world a h e
      split p h (raised x) e = bad p.world h

  pub does_act :
      (wrap : String → MigrationError) (f : s.World → Result String A × s.World)
      → ((w : s.World) (a : A) → P w → (f w).0 ≡ returned a → Q a (f w).1)
      → ((w : s.World) → P w → E (f w).1)
      → Does s P (act wrap f) Q E
  unfolding act
  does_act wrap f good bad = record { run = λ p h. split p h (f p.world).0 refl }
    where
      split :
          (p : Process s)
          → P p.world
          → (r : Result String A) → (f p.world).0 ≡ r
          → Holds s (wrapped wrap r, record p { world = (f p.world).1 }) Q E
      split p h (returned a) e = good p.world a h e
      split p h (raised x) e = bad p.world h

  pub does_attempt :
      {H : s.World → Type 0} (f : s.World → Result String A × s.World) {k : String → Io s A}
      → ((w : s.World) (a : A) → P w → (f w).0 ≡ returned a → Q a (f w).1)
      → ((w : s.World) → P w → H (f w).1)
      → ((e : String) → Does s H (k e) Q E)
      → Does s P (attempt f k) Q E
  unfolding attempt
  does_attempt {H} f {k} good bad next = record { run = λ p h. split p h (f p.world).0 refl }
    where
      split :
          (p : Process s)
          → P p.world
          → (r : Result String A) → (f p.world).0 ≡ r
          → Holds s (recover (r, record p { world = (f p.world).1 }) k) Q E
      split p h (returned a) e = good p.world a h e
      split p h (raised x) e = (next x).run (record p { world = (f p.world).1 }) (bad p.world h)

  pub does_on_error :
      {H : s.World → Type 0} {m : Io s A} {k : MigrationError → Io s A}
      → Does s P m Q H
      → ((e : MigrationError) → Does s H (k e) Q E)
      → Does s P (on_error m k) Q E
  unfolding on_error
  does_on_error {H} {m} {k} first next = record { run = λ p h. split (m p) (first.run p h) }
    where
      split : (r : Result MigrationError A × Process s) → Holds s r Q H → Holds s (recover r k) Q E
      split (returned a, p) h = h
      split (raised e, p) h = (next e).run p h

module _ {s : System} {A : Type 0} {P E : s.World → Type 0} where
  -- What only looks at the world.
  pub does_ask : (f : s.World → A) → Does s P (ask f) (λ _. P) E
  unfolding ask
  does_ask f = record { run = λ p g. g }

pub does_ignore :
    {s : System} {P Q E : s.World → Type 0} (f : s.World → Result String (Unit {0}) × s.World)
    → ((w : s.World) → P w → Q (f w).1)
    → Does s P (ignore f) (λ _. Q) E
unfolding ignore
does_ignore f h = record { run = λ p g. h p.world g }

pub does_fetch_add : {s : System} {P E : s.World → Type 0} → Does s P fetch_add (λ _. P) E
unfolding fetch_add
does_fetch_add = record { run = λ p h. h }

module _ {s : System} {A : Type 0} {P E : s.World → Type 0} {Q R : A → s.World → Type 0} where
  pub weaken :
      {m : Io s A} → Does s P m Q E → ((a : A) (w : s.World) → Q a w → R a w) → Does s P m R E
  weaken {m} d f = record { run = λ p h. split (m p) (d.run p h) }
    where
      split : (r : Result MigrationError A × Process s) → Holds s r Q E → Holds s r R E
      split (returned a, p) h = f a p.world h
      split (raised e, p) h = h

module _ {s : System} {A : Type 0} {P E F : s.World → Type 0} {Q : A → s.World → Type 0} where
  pub weaken_error : {m : Io s A} → Does s P m Q E → ((w : s.World) → E w → F w) → Does s P m Q F
  weaken_error {m} d f = record { run = λ p h. split (m p) (d.run p h) }
    where
      split : (r : Result MigrationError A × Process s) → Holds s r Q E → Holds s r Q F
      split (returned a, p) h = h
      split (raised e, p) h = f p.world h

-- What holds at either end, and what holds when the run returned.
module _ {s : System} {A : Type 0} {P E : s.World → Type 0} {Q : A → s.World → Type 0} {m : Io s A}
    (d : Does s P m Q E) where
  pub ends :
      {F : s.World → Type 0}
      → ((a : A) (w : s.World) → Q a w → F w)
      → ((w : s.World) → E w → F w)
      → (p : Process s) → P p.world
      → F (m p).1.world
  ends {F} good bad p h = split (m p) (d.run p h)
    where
      split : (r : Result MigrationError A × Process s) → Holds s r Q E → F r.1.world
      split (returned a, q) h = good a q.world h
      split (raised e, q) h = bad q.world h

  pub returns_with :
      (p : Process s) → P p.world → (a : A) → (m p).0 ≡ returned a → Q a (m p).1.world
  returns_with p h a e = subst (λ r. Holds s (r, (m p).1) Q E) e (d.run p h)

module _ {s : System} {A X : Type 0} {P : X → s.World → Type 0} {E : s.World → Type 0}
    {Q : A → s.World → Type 0} where
  pub given : {m : Io s A} → ((x : X) → Does s (P x) m Q E) → Does s (λ w. (x : X) × P x w) m Q E
  given {m} d = record { run = λ p (x, h). (d x).run p h }

module _ {s : System} {A : Type 0} {P R E : s.World → Type 0} {Q : A → s.World → Type 0} where
  pub adapt : {m : Io s A} → Does s R m Q E → ((w : s.World) → P w → R w) → Does s P m Q E
  adapt d f = record { run = λ p h. d.run p (f p.world h) }
