-- ===== src/Tools/Databases/Scan.antt =====
-- The loop of `delete_database` over the sessions.
use typedb_mcp.Prelude.{
  ◌≡◌, inl, inr, refl, sym, ap, ◌∙◌, String, Bool, true, false, Option, none, some, List, [], ◌∷◌,
  ◌==◌, arith, has, eq_iff, Bool-cases,
}
use typedb_mcp.Session.{SessionState}
use typedb_mcp.Session.Store.{World, Outcome, done, blocked, pure}
use typedb_mcp.Tools.Discipline.Databases.{looked, put_same, any_on_stops, any_on_goes_on}
use typedb_mcp.Tools.Databases.{any_on}

-- Whether the session has a transaction open on the database.
abbrev pub is_on : String → SessionState → Bool
is_on database s = elim s.tx [ some tx ↦ tx.database == database | none ↦ false ]

-- What the loop over the sessions ends with: none has a transaction on the database, or the first that
-- has one, with its lock held.
abbrev pub Scanned : String → List String → World → Outcome (Option String) → Type 0
Scanned database ids w (done none v) =
    ((j : String) → has j ids ≡ true → is_on database (w.arcs j) ≡ false)
    × (v.held ≡ [])
    × (v.store_held ≡ w.store_held)
    × (v.wire ≡ w.wire)
Scanned database ids w (done (some id) v) =
    (v.held ≡ id ∷ []) × (is_on database (w.arcs id) ≡ true) × (v.wire ≡ w.wire)
Scanned database ids w (blocked v) = ⊥

Scanned-more :
    (database id : String) (ids : List String) (w : World) (r : Outcome (Option String))
    → is_on database (w.arcs id) ≡ false
    → Scanned database ids (looked id w) r
    → Scanned database (id ∷ ids) w r
unfolding has
Scanned-more database id ids w (done none v) b s = (
  λ j h. elim (Bool-cases (id == j)) [
    | inl q ↦ rw (← (eq_iff id j).0 q) b
    | inr q ↦ ap (is_on database) (sym (put_same id w.arcs j)) ∙ s.0 j (rw q at h)
  ],
  s.1,
  s.2,
  s.3,
)
Scanned-more database id ids w (done (some j) v) b s =
    (s.0, ap (is_on database) (sym (put_same id w.arcs j)) ∙ s.1, s.2)
Scanned-more database id ids w (blocked v) b s = s

pub any_on-Scanned :
    (database : String) (ids : List String) (w : World)
    → w.held ≡ []
    → Scanned database ids w (any_on database ids w)
unfolding has
any_on-Scanned database [] w f = unfold any_on pure in (λ j h. ground arith, f, refl, refl)
any_on-Scanned database (id ∷ ids) w f = elim (Bool-cases (is_on database (w.arcs id))) [
  | inl b ↦ rw (any_on_stops database id ids w f b) (ap (λ l. id ∷ l) f, b, refl)
  | inr b ↦
      rw (any_on_goes_on database id ids w f b)
        (Scanned-more database id ids w _ b (any_on-Scanned database ids (looked id w) f))
]
