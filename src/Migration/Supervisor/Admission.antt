-- ===== src/Migration/Supervisor/Admission.antt =====
-- One job at a time: the permit, the reservation and the job come and go together.
use mathlib.Core.Path.{subst}
use typedb_mcp.Prelude.{
  ℕ, ◌≡◌, ◌||◌, ◌==◌, ap, ◌∙◌, has, discard, has-discard, eq_iff, refl, sym, String, Bool, true,
  false, not, Option, List, [], ◌∷◌, if◌then◌else◌, has-add, eq_refl, arith,
}
use typedb_mcp.Coordinator.{
  OperationCoordinator, Reserved, reserved, refused, try_reserve, release, is_reserved,
}
use typedb_mcp.Migration.Paths.{PathBuf}
use typedb_mcp.Migration.Disk.{System, Result, returned, raised, MigrationError, Process}
use typedb_mcp.Migration.Jobs.{Job}
use typedb_mcp.Migration.Supervisor.{
  Ticket, Worker, idle, exited, ended, running, Supervisor, with_factory_and_settings,
  stop_admission, shutdown_request, destinations, is_ended, at_work, send_normalized,
  submit_reserved, submit, drop_all, work, Step, submits, works, stops_admission, shuts_down,
  tool_reserves, tool_releases, Reach, here, next,
}

-- The job has its database reserved, and no tool holds that reservation.
abbrev pub Owned : List String → OperationCoordinator → Ticket → Type 0
Owned ts c t = (is_reserved c t.job.database ≡ true) × (has t.job.database ts ≡ false)

-- Either the permit is free and there is no job, or it is taken and there is one, which owns its reservation.
pub data Admitted (ts : List String)
    : Bool → Worker → List Ticket → OperationCoordinator → Type 0 where
  none_alive : (k : Worker) (c : OperationCoordinator) → at_work k ≡ [] → Admitted ts true k [] c
  in_queue :
      (k : Worker) (c : OperationCoordinator) (t : Ticket)
      → at_work k ≡ []
      → is_ended k ≡ false
      → Owned ts c t
      → Admitted ts false k (t ∷ []) c
  with_worker :
      (c : OperationCoordinator) (t : Ticket) → Owned ts c t → Admitted ts false (running t) [] c

abbrev pub Single : {s : System} → Supervisor s → Type 0
Single v = Admitted v.tools v.permit v.worker v.queue v.coordinator

-- What the tools hold is reserved.
abbrev Holds : List String → OperationCoordinator → Type 0
Holds ts c = (n : String) → has n ts ≡ true → is_reserved c n ≡ true

abbrev Sound : {s : System} → Supervisor s → Type 0
Sound v = Single v × Holds v.tools v.coordinator

Holds-release :
    (ts : List String) (c : OperationCoordinator) (name : String)
    → Holds ts c
    → has name ts ≡ false
    → Holds ts (release c name)
unfolding is_reserved release
Holds-release ts c name h g n m =
    ground (arith, has-discard name n c.names, h n m, eq_iff name n, g, m)

-- A successful reservation is of the name asked for, which was not reserved; the others stay.
pub record Took (c : OperationCoordinator) (database name : String) (d : OperationCoordinator)
    : Type 0 where
  pub same : name ≡ database
  pub before : is_reserved c database ≡ false
  pub after : (n : String) → is_reserved d n ≡ (database == n || is_reserved c n)

try_reserve-Took :
    (c d : OperationCoordinator) (database name : String)
    → try_reserve c database ≡ reserved name d
    → Took c database name d
unfolding try_reserve is_reserved
try_reserve-Took c d database name h = record {
  same = ground (arith, h);
  before = ground (arith, h);
  after = λ n. ground (arith, h, has-add database n c.names);
}

Sound-if :
    {s : System} (v w : Supervisor s) (b : Bool) → Sound v → Sound w → Sound (if b then v else w)
Sound-if v w true h g = h
Sound-if v w false h g = g

Sound-reply :
    {s : System} (x y : Result MigrationError ℕ × Supervisor s) (b : Bool)
    → Sound x.1
    → Sound y.1
    → Sound (if b then x else y).1
Sound-reply x y true h g = h
Sound-reply x y false h g = g

pub ended_holds : {A : Type 0} → is_ended ended ≡ false → A
ended_holds e = absurd (differ e)
  where
    differ : true ≡ false → ⊥
    differ e = cc

pub busy_worker : {A : Type 0} {t : Ticket} → at_work (running t) ≡ [] → A
busy_worker e = absurd (not_empty e)
  where
    not_empty : {t : Ticket} → t ∷ [] ≡ [] → ⊥
    not_empty e = cc

fresh :
    (ts : List String) (c d : OperationCoordinator) (database name : String)
    → Took c database name d
    → Holds ts c
    → has database ts ≡ false
fresh ts c d database name k h = ground (arith, k.before, h database)

Holds-Took :
    (ts : List String) (c d : OperationCoordinator) (database name : String)
    → Took c database name d
    → Holds ts c
    → Holds ts d
Holds-Took ts c d database name k h n m = ground (arith, k.after n, h n m)

module _ {s : System} (v : Supervisor s) where
  abbrev with_state : Bool → Worker → List Ticket → OperationCoordinator → Supervisor s
  with_state b k q c = record v { permit = b; worker = k; queue = q; coordinator = c }

  work-Admitted :
      {b : Bool} {k : Worker} {q : List Ticket} {c : OperationCoordinator}
      → Admitted v.tools b k q c
      → Holds v.tools c
      → Sound (work (with_state b k q c))
  unfolding work drop_all
  work-Admitted (none_alive idle c e) h =
      Sound-if _ _ v.stop (none_alive _ _ refl, h) (none_alive _ _ refl, h)
  work-Admitted (none_alive exited c e) h = (none_alive _ _ refl, h)
  work-Admitted (none_alive ended c e) h = (none_alive _ _ refl, h)
  work-Admitted (none_alive (running t) c e) h = busy_worker e
  work-Admitted (in_queue idle c t e g o) h =
      Sound-if _ _ v.stop (in_queue _ _ t refl refl o, h) (with_worker _ t o, h)
  work-Admitted (in_queue exited c t e g o) h =
      (none_alive _ _ refl, Holds-release v.tools c t.job.database h o.1)
  work-Admitted (in_queue ended c t e g o) h = ended_holds g
  work-Admitted (in_queue (running u) c t e g o) h = busy_worker e
  work-Admitted (with_worker c t o) h =
      (none_alive _ _ refl, Holds-release v.tools c t.job.database h o.1)

  send_normalized-Sound :
      (k : Worker) (c : OperationCoordinator) (name : String) (j : Job)
      (r : Result MigrationError (PathBuf × PathBuf) × Process s)
      → at_work k ≡ []
      → is_reserved c j.database ≡ true
      → has j.database v.tools ≡ false
      → has name v.tools ≡ false
      → Holds v.tools c
      → Sound (send_normalized name j r (with_state true k [] c)).1
  send_normalized-Sound idle c name j (returned (a, b), p) e o f g h =
      (in_queue _ _ _ refl refl (o, f), h)
  send_normalized-Sound exited c name j (returned (a, b), p) e o f g h =
      (in_queue _ _ _ refl refl (o, f), h)
  send_normalized-Sound ended c name j (returned (a, b), p) e o f g h =
      (none_alive _ _ refl, Holds-release v.tools c name h g)
  send_normalized-Sound (running t) c name j (returned (a, b), p) e o f g h = busy_worker e
  send_normalized-Sound k c name j (raised x, p) e o f g h =
      (none_alive _ _ e, Holds-release v.tools c name h g)

  submit_reserved-Sound :
      (k : Worker) (c : OperationCoordinator) (j : Job) (r : Reserved)
      → try_reserve c j.database ≡ r
      → at_work k ≡ []
      → Holds v.tools c
      → Sound (submit_reserved r j (with_state true k [] c)).1
  submit_reserved-Sound k c j (refused x) g e h = (none_alive _ _ e, h)
  submit_reserved-Sound k c j (reserved name d) g e h =
      let took = try_reserve-Took c d j.database name g in
      let free = fresh v.tools c d j.database name took h in
      send_normalized-Sound k d name j (destinations s j v.process) e
        (took.after j.database ∙ rw eq_refl refl) free (ap (λ n. has n v.tools) took.same ∙ free)
        (Holds-Took v.tools c d j.database name took h)

  submit-Admitted :
      {b : Bool} {k : Worker} {q : List Ticket} {c : OperationCoordinator} (j : Job)
      → Admitted v.tools b k q c
      → Holds v.tools c
      → Sound (submit j (with_state b k q c)).1
  unfolding submit
  submit-Admitted j (none_alive k c e) h =
      Sound-reply _ _ (not v.accepting) (none_alive _ _ e, h)
        (submit_reserved-Sound k c j (try_reserve c j.database) refl e h)
  submit-Admitted j (in_queue k c t e g o) h =
      Sound-reply _ _ (not v.accepting) (in_queue _ _ t e g o, h) (in_queue _ _ t e g o, h)
  submit-Admitted j (with_worker c t o) h =
      Sound-reply _ _ (not v.accepting) (with_worker _ t o, h) (with_worker _ t o, h)

-- A tool's steps leave each job the owner of its reservation.
moved :
    (ts us : List String) (d : OperationCoordinator) {b : Bool} {k : Worker} {q : List Ticket}
    {c : OperationCoordinator}
    → ((t : Ticket) → Owned ts c t → Owned us d t)
    → Admitted ts b k q c
    → Admitted us b k q d
moved ts us d f (none_alive k c e) = none_alive k d e
moved ts us d f (in_queue k c t e g o) = in_queue k d t e g (f t o)
moved ts us d f (with_worker c t o) = with_worker d t (f t o)

Owned-Took :
    (ts : List String) (c d : OperationCoordinator) (database name : String) (t : Ticket)
    → Took c database name d
    → Owned ts c t
    → Owned (name ∷ ts) d t
unfolding has
Owned-Took ts c d database name t k (o, f) = ground (
  arith,
  k.after t.job.database,
  k.before,
  k.same,
  eq_iff database t.job.database,
  eq_iff name t.job.database,
)

Holds-more :
    (ts : List String) (c d : OperationCoordinator) (database name : String)
    → Took c database name d
    → Holds ts c
    → Holds (name ∷ ts) d
unfolding has
Holds-more ts c d database name k h n m =
    ground (arith, k.after n, k.same, h n, eq_iff database n, eq_iff name n)

Owned-released :
    (ts : List String) (c : OperationCoordinator) (name : String) (t : Ticket)
    → has name ts ≡ true
    → Owned ts c t
    → Owned (discard name ts) (release c name) t
unfolding is_reserved release
Owned-released ts c name t m (o, f) = ground (
  arith,
  has-discard name t.job.database c.names,
  has-discard name t.job.database ts,
  eq_iff name t.job.database,
)

Holds-less :
    (ts : List String) (c : OperationCoordinator) (name : String)
    → Holds ts c
    → Holds (discard name ts) (release c name)
unfolding is_reserved release
Holds-less ts c name h n m =
    ground (arith, has-discard name n c.names, has-discard name n ts, h n, eq_iff name n)

Step-Sound : {s : System} (v w : Supervisor s) → Sound v → Step v w → Sound w
unfolding stop_admission shutdown_request
Step-Sound v w (g, h) (submits j e) = subst (λ u. Sound u) (sym e) (submit-Admitted v j g h)
Step-Sound v w (g, h) (works e) = subst (λ u. Sound u) (sym e) (work-Admitted v g h)
Step-Sound v w (g, h) (stops_admission e) = subst (λ u. Sound u) (sym e) (g, h)
Step-Sound v w (g, h) (shuts_down e) = subst (λ u. Sound u) (sym e) (g, h)
Step-Sound v w (g, h) (tool_reserves database name c took e) =
    let k = try_reserve-Took v.coordinator c database name took in
    subst (λ u. Sound u) (sym e)
      (
        moved v.tools (name ∷ v.tools) c (λ t. Owned-Took v.tools v.coordinator c database name t k)
            g,
        Holds-more v.tools v.coordinator c database name k h,
      )
Step-Sound v w (g, h) (tool_releases name m e) =
    subst (λ u. Sound u) (sym e)
      (
        moved v.tools (discard name v.tools) (release v.coordinator name)
            (λ t. Owned-released v.tools v.coordinator name t m) g,
        Holds-less v.tools v.coordinator name h,
      )

Reach-Sound :
    {s : System} (p : Process s) (c : OperationCoordinator) (e : Option String) (v : Supervisor s)
    → Reach (with_factory_and_settings s p c e) v
    → Sound v
unfolding with_factory_and_settings has
Reach-Sound p c e v here = (none_alive idle c refl, λ n m. ground (arith, m))
Reach-Sound p c e v (next {u} r st) = Step-Sound u v (Reach-Sound p c e u r) st

-- Whatever jobs are submitted, whatever the worker does and whatever names the tools reserve and release
-- after the start, there is one job at most, in the channel or with the worker; while it is there the permit
-- is taken, its database is reserved and no tool holds that reservation, and without a job the permit is
-- free.
pub Reach-Single :
    {s : System} (p : Process s) (c : OperationCoordinator) (e : Option String) (v : Supervisor s)
    → Reach (with_factory_and_settings s p c e) v
    → Single v
Reach-Single p c e v r = (Reach-Sound p c e v r).0
