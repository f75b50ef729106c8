-- ===== src/Reaper/Loop.antt =====
-- An idle transaction does not survive the reaper.
use typedb_mcp.Prelude.{
  ℕ, ◌+◌, ◌*◌, ◌-◌, ◌≤◌, ◌≡◌, ◌⊎◌, inl, inr, refl, ap, ◌∙◌, String, true, false, ◌||◌, some, none,
  List, [], ◌∷◌, has, length, arith, Bool-cases,
}
use typedb_mcp.Config.{min_idle_timeout}
use typedb_mcp.Wire.{Env}
use typedb_mcp.Session.{OpenTx}
use typedb_mcp.Session.Store.{World, done, ◌>>=◌, ◌>>◌, pure}
use typedb_mcp.Reaper.{reap_round, tick, run_reaper}
use typedb_mcp.Reaper.Sweep.{idle_seconds, has_idled, Made, Swept, spared, is_over}
use typedb_mcp.Tools.Transactions.Ending.{release_call}
use typedb_mcp.Reaper.Round.{round-Swept}

-- Each time is a tick after the one before it, at least.
abbrev pub Spaced : ℕ → ℕ → List ℕ → Type 0
Spaced step t [] = Unit {0}
Spaced step t (u ∷ us) = (t + step ≤ u) × Spaced step u us

module _ (e : Env) (id : String) (tx : OpenTx) where
  -- The session has lost its transaction, and the server got its release.
  abbrev IsReleased : World → Type 0
  IsReleased w = ((w.arcs id).tx ≡ none) × Made (release_call tx) w.wire.trace

  -- It is released, or the session is in the store and still has it.
  abbrev Waits : World → Type 0
  Waits w = IsReleased w ⊎ ((has id w.ids ≡ true) × ((w.arcs id).tx ≡ some tx))

  Swept-none :
      (t : ℕ) (ids : List String) (w v : World) → Swept e t ids w v → IsReleased w → IsReleased v
  unfolding spared
  Swept-none t ids w v a (n, m) = (ground (arith, a.transactions id, n), a.earlier _ m)

  Swept-lost :
      (t : ℕ) (w v : World)
      → Swept e t w.ids w v
      → (w.arcs id).tx ≡ some tx
      → (v.arcs id).tx ≡ none
      → IsReleased v
  Swept-lost t w v a n m = (m, a.released id tx n m)

  Swept-idle :
      (t : ℕ) (w v : World)
      → Swept e t w.ids w v
      → has id w.held ≡ false
      → has id w.ids ≡ true
      → (w.arcs id).tx ≡ some tx
      → has_idled e t tx ≡ true
      → IsReleased v
  unfolding spared
  Swept-idle t w v a h k n i = Swept-lost t w v a n (ground (arith, a.transactions id, n, i))

  Swept-Waits :
      (t : ℕ) (w v : World)
      → Swept e t w.ids w v
      → has id w.held ≡ false
      → has id w.ids ≡ true
      → (w.arcs id).tx ≡ some tx
      → Waits v
  unfolding spared
  Swept-Waits t w v a h k n =
      elim (Bool-cases (is_over t (w.arcs id).expires_at || has_idled e t tx)) [
        | inl b ↦ inl (Swept-lost t w v a n (ground (arith, a.transactions id, n, b)))
        | inr b ↦ inr (ground (arith, a.kept id, b), ground (arith, a.transactions id, n, b))
      ]

  -- The end of the loop, with the transaction released.
  abbrev Released : List ℕ → World → Type 0
  Released ts w = (v : World) × (run_reaper e ts w ≡ done tt v) × IsReleased v

  one_round :
      (t : ℕ) (ts : List ℕ) (w v : World)
      → reap_round e t w ≡ done tt v
      → Released ts v
      → Released (t ∷ ts) w
  unfolding run_reaper ◌>>=◌ ◌>>◌
  one_round t ts w v run (u, rest, n) = (u, rw run rest, n)

  none-Released : (ts : List ℕ) (w : World) → w.store_held ≡ false → IsReleased w → Released ts w
  none-Released [] w s n = unfold run_reaper pure in (w, refl, n)
  none-Released (t ∷ ts) w s n =
      let (v, run, a) = round-Swept e t w s in
      one_round t ts w v run (none-Released ts v a.store_same (Swept-none t w.ids w v a n))

  never :
      (t n : ℕ)
      → has_idled e t tx ≡ false
      → idle_seconds e.config.server tx.kind * 1_000_000_000 ≤ t - tx.last_activity + 0 * n
      → ⊥
  unfolding has_idled
  never t n i b = ground arith

  -- From a round at `t` at which the transaction was not idle long enough.
  Waits-Released :
      (step t : ℕ) (ts : List ℕ) (w : World)
      → w.store_held ≡ false
      → has id w.held ≡ false
      → Waits w
      → Spaced step t ts
      → tx.last_activity ≤ t
      → has_idled e t tx ≡ false
      → idle_seconds e.config.server tx.kind * 1_000_000_000
        ≤ t - tx.last_activity + length ts * step
      → Released ts w
  Waits-Released step t ts w s h (inl n) sp l i b = none-Released ts w s n
  Waits-Released step t [] w s h (inr (k, n)) sp l i b = absurd (never t step i b)
  Waits-Released step t (u ∷ us) w s h (inr (k, n)) sp l i b =
      let (v, run, a) = round-Swept e u w s in
      one_round u us w v run (elim (Bool-cases (has_idled e u tx)) [
        | inl j ↦ none-Released us v a.store_same (Swept-idle u w v a h k n j)
        | inr j ↦
            Waits-Released step u us v a.store_same (ap (has id) a.held_same ∙ h)
              (Swept-Waits u w v a h k n) sp.1 (omega (arith, sp.0)) j (omega (arith, sp.0))
      ])

-- A transaction in a session of the store whose lock is free, and that no request touches any more, is
-- released by the reaper, by the call to the server that closes a READ transaction and rolls back another, once its rounds, a tick apart at least, have gone on for the idle timeout of its kind: as many
-- rounds after the first one as there are ticks in the timeout. The loop waits for no lock meanwhile.
pub run_reaper_releases :
    (e : Env) (id : String) (tx : OpenTx) (t : ℕ) (ts : List ℕ) (w : World)
    → w.store_held ≡ false
    → has id w.held ≡ false
    → has id w.ids ≡ true
    → (w.arcs id).tx ≡ some tx
    → tx.last_activity ≤ t
    → Spaced (tick (min_idle_timeout e.config)) t ts
    → idle_seconds e.config.server tx.kind * 1_000_000_000
      ≤ length ts * tick (min_idle_timeout e.config)
    → (v : World) × (run_reaper e (t ∷ ts) w ≡ done tt v)
      × (((v.arcs id).tx ≡ none) × Made (release_call tx) v.wire.trace)
run_reaper_releases e id tx t ts w s h k n l sp i =
    let (v, run, a) = round-Swept e t w s in
    one_round e id tx t ts w v run (elim (Bool-cases (has_idled e t tx)) [
      | inl j ↦ none-Released e id tx ts v a.store_same (Swept-idle e id tx t w v a h k n j)
      | inr j ↦
          Waits-Released e id tx (tick (min_idle_timeout e.config)) t ts v a.store_same
            (ap (has id) a.held_same ∙ h) (Swept-Waits e id tx t w v a h k n) sp l j
            (omega (arith, i))
    ])
