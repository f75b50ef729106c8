-- ===== src/Tools/Migrate/Answering.antt =====
-- What a migration tool answers once its job has ended, and which gates it clears.
use typedb_mcp.Prelude.{
  ◌≡◌, refl, sym, ap, ◌∙◌, String, Bool, true, false, not, ◌&&◌, Option, none, [], ◌∷◌, ◌==◌, has,
}
use typedb_mcp.Errors.{unclassified}
use typedb_mcp.Wire.{Env}
use typedb_mcp.Session.{snapshot}
use typedb_mcp.Session.Store.{World, done, M, ◌>>=◌, ◌>>◌, pure, put, lock, inside, continue}
use typedb_mcp.Session.Store.Resolve.{IsLive}
use typedb_mcp.Session.Store.Invalidate.{invalidate-Unseen}
use typedb_mcp.Migration.Disk.{MigrationKind, export_kind, import_kind, returned, raised}
use typedb_mcp.Migration.Supervisor.{result, dropped}
use typedb_mcp.Envelope.{
  CallToolResult, Verdict, success, explained, shown, fixed, migrated, conclude, envelope,
  on_upstream_unavailable, after_get_schema,
}
use typedb_mcp.Tools.Resolving.{entered, resolving_live}
use typedb_mcp.Tools.Discipline.Databases.{looked, put_same}
use typedb_mcp.Tools.Discipline.Delete.{conclude_lem}
use typedb_mcp.Migration.Jobs.{MigrationReport}
use typedb_mcp.Tools.Migrate.SelfLock.{entered_tx}
use typedb_mcp.Tools.Migrate.{
  Awaited, not_submitted, awaited, invalidate_if_imported, answer_migration, migrate_owned,
  is_unconfirmed, do_migration,
}

-- A report is a success; a refused submission and a failed job are explained by their error, and a lost one by
-- a text of its own.
abbrev pub told : String → Awaited → Verdict
told database (awaited (result (returned report))) =
    success (migrated database report) (after_get_schema database)
told database (awaited (result (raised error))) =
    explained unclassified (shown error) on_upstream_unavailable
told database (not_submitted error) = explained unclassified (shown error) on_upstream_unavailable
told database (awaited dropped) =
    explained unclassified (fixed "Migration worker ended before reporting completion.")
      on_upstream_unavailable

-- Only an import that reported clears gates.
abbrev pub is_imported : MigrationKind → Awaited → Bool
is_imported kind (not_submitted error) = false
is_imported import_kind (awaited (result (returned report))) = true
is_imported export_kind (awaited (result (returned report))) = false
is_imported kind (awaited (result (raised error))) = false
is_imported kind (awaited dropped) = false

-- From the world `v` in which the job ended to the world `u` after the answer.
pub record Ended (e : Env) (kind : MigrationKind) (sid database : String) (r : Awaited) (v : World)
    (a : CallToolResult) (u : World) : Type 0 where
  pub answer : a ≡ envelope e (snapshot sid (u.arcs sid)) (told database r)
  pub gates :
      (j k : String)
      → has k (u.arcs j).schema_seen ≡ (
          not (is_imported kind r && (database == k && (has j v.ids && not (j == sid))))
          && has k (v.arcs j).schema_seen)
  pub transactions : (j : String) → (u.arcs j).tx ≡ (v.arcs j).tx
  pub free : u.held ≡ []
  pub wire_same : u.wire ≡ v.wire

concluded :
    (e : Env) (sid : String) (verdict : Verdict) (v : World)
    → v.held ≡ []
    → (conclude e sid verdict v
        ≡ done (envelope e (snapshot sid ((looked sid v).arcs sid)) verdict) (looked sid v))
concluded e sid verdict v f =
    conclude_lem e sid verdict v (rw f (unfold has in refl))
    ∙ ap (λ s. done (envelope e (snapshot sid s) verdict) (looked sid v))
        (sym (put_same sid v.arcs sid))

-- An answer that clears nothing.
unchanged :
    (e : Env) (kind : MigrationKind) (sid database : String) (r : Awaited) (v : World)
    → v.held ≡ []
    → is_imported kind r ≡ false
    → Ended e kind sid database r v
        (envelope e (snapshot sid ((looked sid v).arcs sid)) (told database r))
        (looked sid v)
unchanged e kind sid database r v f n = record {
  answer = refl;
  gates = λ j k. rw n (ap (λ s. has k s.schema_seen) (put_same sid v.arcs j));
  transactions = λ j. ap (λ s. s.tx) (put_same sid v.arcs j);
  free = f;
  wire_same = refl;
}

kept :
    (e : Env) (kind : MigrationKind) (sid database : String) (r : Awaited) (v : World)
    → v.held ≡ []
    → is_imported kind r ≡ false
    → answer_migration e kind sid database r v ≡ conclude e sid (told database r) v
    → (a : CallToolResult) × (u : World) × (answer_migration e kind sid database r v ≡ done a u)
      × Ended e kind sid database r v a u
kept e kind sid database r v f n h = (
  _,
  looked sid v,
  h ∙ concluded e sid (told database r) v f,
  unchanged e kind sid database r v f n,
)

imported :
    (e : Env) (sid database : String) (report : MigrationReport) (v : World)
    → v.held ≡ []
    → v.store_held ≡ false
    → let r = awaited (result (returned report)) in
      (a : CallToolResult) × (u : World) × (answer_migration e import_kind sid database r v
        ≡ done a u)
      × Ended e import_kind sid database r v a u
unfolding answer_migration invalidate_if_imported ◌>>=◌ ◌>>◌
imported e sid database report v f s =
    let (t, run, un) = invalidate-Unseen database sid v f s in
    let verdict = told database (awaited (result (returned report))) in
    (
      envelope e (snapshot sid ((looked sid t).arcs sid)) verdict,
      looked sid t,
      rw run (concluded e sid verdict t (un.held_same ∙ f)),
      record {
        answer = refl;
        gates = λ j k. ap (λ s. has k s.schema_seen) (put_same sid t.arcs j) ∙ un.gates j k;
        transactions = λ j. ap (λ s. s.tx) (put_same sid t.arcs j) ∙ un.transactions j;
        free = un.held_same ∙ f;
        wire_same = un.wire_same;
      },
    )

answering :
    (e : Env) (kind : MigrationKind) (sid database : String) (r : Awaited) (v : World)
    → v.held ≡ []
    → v.store_held ≡ false
    → (a : CallToolResult) × (u : World) × (answer_migration e kind sid database r v ≡ done a u)
      × Ended e kind sid database r v a u
unfolding answer_migration invalidate_if_imported ◌>>=◌ ◌>>◌ pure
answering e kind sid database (not_submitted error) v f s =
    kept e kind sid database (not_submitted error) v f refl refl
answering e import_kind sid database (awaited (result (returned report))) v f s =
    imported e sid database report v f s
answering e export_kind sid database (awaited (result (returned report))) v f s =
    kept e export_kind sid database (awaited (result (returned report))) v f refl refl
answering e kind sid database (awaited (result (raised error))) v f s =
    kept e kind sid database (awaited (result (raised error))) v f refl refl
answering e kind sid database (awaited dropped) v f s =
    kept e kind sid database (awaited dropped) v f refl refl

-- What the job starts from: the session's lock is held.
abbrev pub owned : String → World → World
owned sid w = record w { held = sid ∷ w.held; arcs = put sid (w.arcs sid) w.arcs }

migrate_owned-owned :
    (e : Env) (kind : MigrationKind) (sid database : String) (ran : M Awaited) (w : World)
    → w.held ≡ []
    → (w.arcs sid).tx ≡ none
    → migrate_owned e kind sid database ran w
      ≡ continue (ran (owned sid w)) (answer_migration e kind sid database)
unfolding migrate_owned lock inside has ◌>>=◌ ◌>>◌
migrate_owned-owned e kind sid database ran w f h = simp (f, h)

pub do_migration_answers :
    (e : Env) (kind : MigrationKind) (sid database : String) (confirm : Option String)
    (ran : M Awaited) (w v : World) (r : Awaited)
    → IsLive e sid w
    → (w.arcs sid).tx ≡ none
    → is_unconfirmed database confirm ≡ false
    → ran (owned sid (entered e sid w)) ≡ done r v
    → v.held ≡ []
    → v.store_held ≡ false
    → (a : CallToolResult) × (u : World) × (do_migration e true kind sid database confirm ran w
        ≡ done a u)
      × Ended e kind sid database r v a u
unfolding do_migration
do_migration_answers e kind sid database confirm ran w v r l h c run f s =
    let (a, u, ends, x) = answering e kind sid database r v f s in
    let start : World = entered e sid w in
    (
      a,
      u,
      rw c (
          resolving_live e sid _ w l
          ∙ migrate_owned-owned e kind sid database ran start l.free (entered_tx e sid w ∙ h)
          ∙ ap (λ o. continue o (answer_migration e kind sid database)) run
          ∙ ends),
      x,
    )
