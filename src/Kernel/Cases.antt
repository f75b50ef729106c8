-- ===== src/Kernel/Cases.antt =====
-- How the window of `with_owned_tx` ends.
use typedb_mcp.Prelude.{
  ◌≡◌, ◌≢◌, ◌⊎◌, inl, inr, refl, String, Bool, true, false, none, some, List, ◌∷◌, arith, has,
  length, Bool-cases, Option-cases,
}
use typedb_mcp.Errors.{DriverError, driver, to_class, tx_already_open, schema_not_read}
use typedb_mcp.Kinds.{TxKind}
use typedb_mcp.Wire.{
  Env, Wire, Call, opens, commits, rolls_back, made, Reply, ok, err, DriverTransaction,
  open_transaction,
}
use typedb_mcp.Session.{SessionState}
use typedb_mcp.Envelope.{Verdict, success, failure, state_error, on_error}
use typedb_mcp.Tools.Queries.Retriable.{IsRefused}
use typedb_mcp.Kernel.{
  Tried, fine, failed, TxOutcome, commit_with, rollback_with, Closure, Owned, refusal, ran,
  owned_tx_window,
}

-- The transaction that the helper opens, and the world that the closure finds.
abbrev pub own_tx : String → TxKind → List Call → DriverTransaction
own_tx database kind calls = record { handle = length calls; database = database; kind = kind }

abbrev pub given : String → TxKind → Closure TxOutcome → Wire → Tried TxOutcome × Wire
given database kind f x = f (own_tx database kind x.trace) (made (opens database kind) x)

-- The call that ends the transaction.
abbrev pub ending : Tried TxOutcome → DriverTransaction → Call
ending (fine (commit_with json)) t = commits t
ending _ t = rolls_back t

abbrev pub is_ok : {A : Type 0} → Reply A → Bool
is_ok (ok a) = true
is_ok (err d) = false

-- Whether the closure's work is reported as done.
abbrev pub succeeds : Env → Tried TxOutcome → DriverTransaction → List Call → Bool
succeeds e (fine (commit_with json)) t calls = is_ok (e.on_commit (commits t ∷ calls))
succeeds e (fine (rollback_with json)) t calls = true
succeeds e (failed x) t calls = false

abbrev pub is_failure : Verdict → Bool
is_failure (success p h) = false
is_failure _ = true

-- The three ways in which the window ends.
abbrev pub Cases :
    Env → String → TxKind → Closure TxOutcome → SessionState → Wire → Owned → Wire → Type 0
Cases e database kind f s x o y =
    ((v : Verdict) × (o ≡ refusal v)
      × (is_failure v ≡ true)
      × (y.trace ≡ x.trace)
      × ((s.tx ≢ none) ⊎ (has database s.schema_seen ≡ false)))
    ⊎ ((v : Verdict) × (o ≡ refusal v)
        × (is_failure v ≡ true)
        × (y.trace ≡ opens database kind ∷ x.trace)
        × IsRefused (e.on_open (opens database kind ∷ x.trace)))
    ⊎ ((s.tx ≡ none)
        × (has database s.schema_seen ≡ true)
        × (o ≡ ran (own_tx database kind x.trace) (given database kind f x).0)
        × (y ≡ (given database kind f x).1))

Reply-cases : (r : Reply (Unit {0})) → (r ≡ ok tt) ⊎ ((d : DriverError) × (r ≡ err d))
Reply-cases (ok t) = inl refl
Reply-cases (err d) = inr (d, refl)

pub owned_tx_window_keeps :
    (e : Env) (database : String) (kind : TxKind) (f : Closure TxOutcome) (s : SessionState)
    (x : Wire)
    → (owned_tx_window e database kind f s x).1 ≡ s
unfolding owned_tx_window open_transaction
owned_tx_window_keeps e database kind f s x = ground arith

pub owned_tx_window-Cases :
    (e : Env) (database : String) (kind : TxKind) (f : Closure TxOutcome) (s : SessionState)
    (x : Wire)
    → let r = owned_tx_window e database kind f s x in Cases e database kind f s x r.0 r.2
unfolding owned_tx_window open_transaction
owned_tx_window-Cases e database kind f s x = elim (Option-cases s.tx) [
  | inr (tx, q) ↦
      inl (
        state_error tx_already_open (on_error tx_already_open none),
        rw q,
        refl,
        rw q,
        inl (λ n. cc),
      )
  | inl shut ↦ elim (Bool-cases (has database s.schema_seen)) [
    | inr unseen ↦ inl (
      state_error schema_not_read (on_error schema_not_read (some database)),
      rw shut (rw unseen refl),
      refl,
      rw shut (rw unseen refl),
      inr unseen,
    )
    | inl seen ↦ elim (Reply-cases (e.on_open (opens database kind ∷ x.trace))) [
      | inr (d, q) ↦ inr (
          inl (
            failure (driver d) (on_error (to_class (driver d)) (some database)),
            rw shut (rw seen (rw q refl)),
            refl,
            rw shut (rw seen (rw q refl)),
            rw q tt,
          ))
      | inl q ↦ inr (inr (shut, seen, rw shut (rw seen (rw q refl)), rw shut (rw seen (rw q refl))))
    ]
  ]
]
