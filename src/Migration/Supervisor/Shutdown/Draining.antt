-- ===== src/Migration/Supervisor/Shutdown/Draining.antt =====
-- `shutdown` ends, and its result is what the worker did.
use typedb_mcp.Prelude.{
  ℕ, zero, suc, ◌+◌, ◌*◌, ◌/◌, ◌≤◌, ◌<◌, ◌≡◌, refl, Bool, true, false, Option, some, List, [], ◌∷◌,
  leb, arith, Bool-cases, inl, inr, ◌∙◌, ap, sym, if_true, if_false,
}
use typedb_mcp.Migration.Disk.{System}
use typedb_mcp.Migration.Supervisor.{
  Ticket, Worker, idle, exited, ended, running, Supervisor, work, advance, shutdown_request,
  drop_all,
}
use typedb_mcp.Migration.Supervisor.Shutdown.{
  ShutdownResult, completed, still_running, works, poll, polls, shutdown,
}

-- The worker has left its loop.
abbrev pub has_left : Worker → Bool
has_left idle = false
has_left (running t) = false
has_left exited = true
has_left ended = true

-- `completed` is told when the worker leaves its loop.
abbrev pub IsHonest : {s : System} → Supervisor s → Type 0
IsHonest v = v.completed ≡ has_left v.worker

drop_all-keeps :
    {s : System} (ts : List Ticket) (v : Supervisor s)
    → ((drop_all ts v).completed ≡ v.completed)
      × ((drop_all ts v).worker ≡ v.worker)
      × ((drop_all ts v).stop ≡ v.stop)
      × ((drop_all ts v).accepting ≡ v.accepting)
unfolding drop_all
drop_all-keeps [] v = (refl, refl, refl, refl)
drop_all-keeps (t ∷ ts) v = drop_all-keeps ts _

-- What a step of the worker does to the flags, with `k` for where the worker is.
advance-IsHonest :
    {s : System} (k : Worker) (v : Supervisor s)
    → v.worker ≡ k
    → IsHonest v
    → IsHonest (advance k v) × ((advance k v).stop ≡ v.stop)
advance-IsHonest idle v e h = ground arith
advance-IsHonest (running t) v e h = ground arith
advance-IsHonest exited v e h =
    let (c, k, st, ac) = drop_all-keeps v.queue (record v { worker = ended; queue = [] }) in
    (c ∙ h ∙ ap has_left e ∙ sym (ap has_left k), st)
advance-IsHonest ended v e h = (h, refl)

-- Once it has left its loop, it does not come back.
advance-left :
    {s : System} (k : Worker) (v : Supervisor s)
    → v.worker ≡ k
    → has_left k ≡ true
    → has_left (advance k v).worker ≡ true
advance-left idle v e h = ground (arith, h)
advance-left (running t) v e h = ground (arith, h)
advance-left exited v e h =
    ap has_left (drop_all-keeps v.queue (record v { worker = ended; queue = [] })).1
advance-left ended v e h = ap has_left e

-- A job that is running is finished by one step, and an idle worker sees `stop` with one step.
advance-idle : {s : System} (t : Ticket) (v : Supervisor s) → (advance (running t) v).worker ≡ idle
advance-idle t v = refl

advance-stops :
    {s : System} (v : Supervisor s) → v.stop ≡ true → has_left (advance idle v).worker ≡ true
advance-stops v h = ground arith

two_steps :
    {s : System} (k : Worker) (v : Supervisor s)
    → v.worker ≡ k
    → v.stop ≡ true
    → has_left (work (advance k v)).worker ≡ true
unfolding work
two_steps idle v e h = advance-left _ _ refl (advance-stops v h)
two_steps (running t) v e h = advance-stops (advance (running t) v) h
two_steps exited v e h = advance-left _ _ refl (advance-left exited v e refl)
two_steps ended v e h = advance-left _ _ refl (advance-left ended v e refl)

works-left :
    {s : System} (k : ℕ) (v : Supervisor s)
    → has_left v.worker ≡ true
    → has_left (works k v).worker ≡ true
unfolding works work
works-left zero v h = h
works-left (suc k) v h = works-left k (work v) (advance-left v.worker v refl h)

-- Two steps are enough.
works-two :
    {s : System} (k : ℕ) (v : Supervisor s)
    → v.stop ≡ true
    → 2 ≤ k
    → has_left (works k v).worker ≡ true
unfolding works work
works-two zero v h l = absurd (omega arith)
works-two (suc zero) v h l = absurd (omega arith)
works-two (suc (suc k)) v h l = works-left k _ (two_steps v.worker v refl h)

works-IsHonest :
    {s : System} (k : ℕ) (v : Supervisor s)
    → IsHonest v
    → IsHonest (works k v) × ((works k v).stop ≡ v.stop)
unfolding works work
works-IsHonest zero v h = (h, refl)
works-IsHonest (suc k) v h =
    let (g, st) = advance-IsHonest v.worker v refl h in
    let (g', st') = works-IsHonest k (work v) g in (g', st' ∙ st)

abbrev pub is_completed : ShutdownResult → Bool
is_completed completed = true
is_completed still_running = false

-- A millisecond passes between two looks.
abbrev pub Ticks : (ℕ → ℕ) → Type 0
Ticks clock = (n : ℕ) → clock n + 1_000_000 ≤ clock (suc n)

-- The result, and the worker at the last look.
abbrev pub Polled : {s : System} → Option (ShutdownResult × Supervisor s) → Type 0
Polled {s} o =
    (r : ShutdownResult) × (u : Supervisor s) × (o ≡ some (r, u))
    × (is_completed r ≡ has_left u.worker)

poll-Polled :
    {s : System} (fuel deadline : ℕ) (clock progress : ℕ → ℕ) (n : ℕ) (v : Supervisor s)
    → Ticks clock
    → IsHonest v
    → deadline ≤ clock n + fuel * 1_000_000
    → Polled (poll (suc fuel) deadline clock progress n v)
unfolding poll
poll-Polled zero deadline clock progress n v t h l = elim (Bool-cases v.completed) [
  | inl c ↦ (completed, v, if_true _ _ _ c, sym c ∙ h)
  | inr c ↦ (
    still_running,
    v,
    if_false _ _ _ c ∙ if_true (leb deadline (clock n)) _ _ (ground arith),
    sym c ∙ h,
  )
]
poll-Polled (suc fuel) deadline clock progress n v t h l =
    let (r, u, run, x) =
      poll-Polled fuel deadline clock progress (suc n) (works (progress n) v) t
        (works-IsHonest (progress n) v h).0 (omega (arith, t n)) in
    elim (Bool-cases v.completed) [
      | inl c ↦ (completed, v, if_true _ _ _ c, sym c ∙ h)
      | inr c ↦ elim (Bool-cases (leb deadline (clock n))) [
        | inl b ↦ (still_running, v, if_false _ _ _ c ∙ if_true _ _ _ b, sym c ∙ h)
        | inr b ↦ (r, u, if_false _ _ _ c ∙ if_false _ _ _ b ∙ run, x)
      ]
    ]

-- With a clock that goes on a millisecond between two looks, `shutdown` returns after at most
-- one look per millisecond of the grace period and two more: `Completed` exactly if the worker has left its
-- loop at the last look, `StillRunning` otherwise.
pub shutdown-Polled :
    {s : System} (grace : ℕ) (clock progress : ℕ → ℕ) (v : Supervisor s)
    → IsHonest v
    → Ticks clock
    → Polled (shutdown grace clock progress v)
unfolding shutdown shutdown_request
shutdown-Polled grace clock progress v h t =
    poll-Polled (suc (grace / 1_000_000)) (clock 0 + grace) clock progress 1 (shutdown_request v) t
      h (omega (arith, t 0))

module _ {s : System} (grace : ℕ) (clock progress : ℕ → ℕ) (v : Supervisor s) where
  at_first :
      v.completed ≡ true
      → poll (polls grace) (clock 0 + grace) clock progress 1 v ≡ some (completed, v)
  unfolding poll
  at_first c = if_true _ _ _ c

  at_second :
      v.completed ≡ false
      → (works (progress 1) v).completed ≡ true
      → leb (clock 0 + grace) (clock 1) ≡ false
      → poll (polls grace) (clock 0 + grace) clock progress 1 v
        ≡ some (completed, works (progress 1) v)
  unfolding poll
  at_second d c b = if_false _ _ _ d ∙ if_false _ _ _ b ∙ if_true _ _ _ c

-- Whatever the worker is at, two of its steps between the first two looks, which are the end
-- of a running job and the end of the loop, make `shutdown` return `Completed` if the deadline is not reached at the first look.
pub shutdown-completes :
    {s : System} (grace : ℕ) (clock progress : ℕ → ℕ) (v : Supervisor s)
    → IsHonest v
    → 2 ≤ progress 1
    → clock 1 < clock 0 + grace
    → (u : Supervisor s) × (shutdown grace clock progress v ≡ some (completed, u))
unfolding shutdown shutdown_request
shutdown-completes grace clock progress v h k l =
    let u = works (progress 1) (shutdown_request v) in
    let c : u.completed ≡ true =
      (works-IsHonest (progress 1) (shutdown_request v) h).0
      ∙ works-two (progress 1) (shutdown_request v) refl k in
    elim (Bool-cases v.completed) [
      | inl d ↦ (shutdown_request v, at_first grace clock progress (shutdown_request v) d)
      | inr d ↦ (u, at_second grace clock progress (shutdown_request v) d c (ground arith))
    ]
