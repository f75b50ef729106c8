-- ===== src/Migration/Supervisor/Answering.antt =====
-- Every job that was accepted gets its answer from the worker.
use mathlib.Core.Path.{subst}
use typedb_mcp.Prelude.{◌≡◌, ◌++◌, refl, Bool, true, false, List, [], ◌∷◌, if◌then◌else◌}
use typedb_mcp.Coordinator.{OperationCoordinator}
use typedb_mcp.Migration.Disk.{System}
use typedb_mcp.Migration.Supervisor.{
  Ticket, Worker, idle, exited, ended, running, Answer, result, dropped, Supervisor, at_work, alive,
  drop_all, execute, work,
}
use typedb_mcp.Migration.Supervisor.Admission.{
  Admitted, none_alive, in_queue, with_worker, Single, ended_holds, busy_worker,
}

-- What the receiver of the job gets: the job's result, unless the worker sees `stop` before it takes
-- the job.
abbrev pub outcome : {s : System} → Supervisor s → Ticket → Answer
outcome {s} v t = elim v.worker [
  | running u ↦ result (execute s v.factory_error t.job v.process).0
  | idle ↦ if v.stop then dropped else result (execute s v.factory_error t.job v.process).0
  | exited ↦ dropped
  | ended ↦ dropped
]

same_ticket : (t u : Ticket) → t ∷ [] ≡ u ∷ [] → t ≡ u
same_ticket t u e = cc

nothing_alive : {A : Type 0} {u : Ticket} → [] ≡ u ∷ [] → A
nothing_alive {u = u} e = absurd (differ u e)
  where
    differ : (u : Ticket) → [] ≡ u ∷ [] → ⊥
    differ u e = cc

module _ {s : System} (v : Supervisor s) where
  abbrev at_stop : Bool → Bool → Worker → List Ticket → OperationCoordinator → Supervisor s
  at_stop stop b k q c = record v {
    stop = stop;
    permit = b;
    worker = k;
    queue = q;
    coordinator = c;
  }

  abbrev Delivers : Supervisor s → Ticket → Type 0
  Delivers u t = (work (work (work u))).answers ≡ (t.id, outcome u t) ∷ u.answers

  work-Delivers :
      {b : Bool} {k : Worker} {q : List Ticket} {c : OperationCoordinator} (stop : Bool)
      (t : Ticket)
      → Admitted v.tools b k q c
      → at_work k ++ q ≡ t ∷ []
      → Delivers (at_stop stop b k q c) t
  unfolding work drop_all
  work-Delivers stop t (none_alive k c e) a = nothing_alive (subst (λ ts. ts ++ [] ≡ t ∷ []) e a)
  work-Delivers true t (in_queue idle c u e g o) a =
      subst (λ x. Delivers (at_stop true false idle (u ∷ []) c) x) (same_ticket u t a) refl
  work-Delivers false t (in_queue idle c u e g o) a =
      subst (λ x. Delivers (at_stop false false idle (u ∷ []) c) x) (same_ticket u t a) refl
  work-Delivers stop t (in_queue exited c u e g o) a =
      subst (λ x. Delivers (at_stop stop false exited (u ∷ []) c) x) (same_ticket u t a) refl
  work-Delivers stop t (in_queue ended c u e g o) a = ended_holds g
  work-Delivers stop t (in_queue (running r) c u e g o) a = busy_worker e
  work-Delivers true t (with_worker c u o) a =
      subst (λ x. Delivers (at_stop true false (running u) [] c) x) (same_ticket u t a) refl
  work-Delivers false t (with_worker c u o) a =
      subst (λ x. Delivers (at_stop false false (running u) [] c) x) (same_ticket u t a) refl

-- A job that is in the channel or with the worker is answered within three steps of the worker, once:
-- with its result, or as dropped when `stop` was set before the worker took it.
pub work-outcome :
    {s : System} (v : Supervisor s) (t : Ticket)
    → Single v
    → alive v ≡ t ∷ []
    → (work (work (work v))).answers ≡ (t.id, outcome v t) ∷ v.answers
work-outcome v t h a = work-Delivers v v.stop t h a
