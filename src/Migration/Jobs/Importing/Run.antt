-- ===== src/Migration/Jobs/Importing/Run.antt =====
-- The run of `import` and of an import job.
use mathlib.Core.Path.{subst}
use typedb_mcp.Prelude.{ℕ, ◌≡◌, ◌⊎◌, inr, refl, sym, ap, ◌∙◌, false, none, List, [], ◌∷◌}
use typedb_mcp.Migration.Frames.{ok, validate_frames}
use typedb_mcp.Migration.Paths.{PathBuf}
use typedb_mcp.Migration.Disk.{System, returned, import_kind, Process, Io}
use typedb_mcp.Migration.Disk.Laws.{Lawful}
use typedb_mcp.Migration.Disk.Triple.{
  Does, bind, before, weaken, weaken_error, ends, returns_with, does_pure, does_fail, does_attempt,
  does_on_error, does_ignore, does_ask,
}
use typedb_mcp.Migration.Checks.Quiet.{look_quiet, look_fact, refuse_if-Does, validate_pair-Does}
use typedb_mcp.Migration.Checks.Finds.{Fits, validate_schema_finds, validate_frames_file_finds}
use typedb_mcp.Migration.Jobs.{
  Job, MigrationReport, cleanup, guarded, hash_file, copy_checked, refuse_existing,
  import_from_stage, import_staged, import, run_kind, run_job,
}
use typedb_mcp.Migration.Jobs.Steps.{Intact, remove_file-Intact, ensure_headroom-Does}
use typedb_mcp.Migration.Jobs.Importing.{
  Kept, New, Both, IsReadAs, Accepted, Guarded, Leaks, HasCopy, Kept-Guarded, stage_first,
  stage_second, remove_first, remove_second, copy_first, copy_second,
}

module _ {s : System} (l : Lawful s) (j : Job) (w0 : s.World) where
  Guarded-remove_file :
      (p : PathBuf) (w : s.World)
      → s.at (s.place p) w0 ≡ none
      → Guarded s j w0 w
      → Guarded s j w0 (s.remove_file p w).1
  Guarded-remove_file p w fresh g = record {
    intact = remove_file-Intact l w0 p w fresh g.intact;
    reached =
        subst (λ v. (v ≡ s.server w0) ⊎ Accepted s j w0) (sym (l.remove_file_server p w)) g.reached;
  }

  module _ (a b : PathBuf) where
    -- Both copies passed.
    record Passed (w : s.World) : Type 0 where
      both : Both s w0 a b w
      has_a : HasCopy s w0 j.schema a w
      schema_fits : (b : List ℕ) × Fits j.schema_size_cap_bytes b × IsReadAs s w0 j.schema b
      frames_ok : (b : List ℕ) × (validate_frames b ≡ ok) × IsReadAs s w0 j.rows b

    hash_quiet :
        {P E : s.World → Type 0} (i : (w : s.World) → P w → E w) (p : PathBuf)
        → Does s P (hash_file s p) (λ _. P) E
    unfolding hash_file
    hash_quiet i p = bind (look_quiet i _ _) (λ content. does_pure _ (λ w h. h))

    copy_checked-Does : Does s (Both s w0 a b) (copy_checked s j a b) (λ _. Passed) (Both s w0 a b)
    unfolding copy_checked
    copy_checked-Does = before (remove_first l j w0 a b) (
        before (remove_second l j w0 a b) (
          before (copy_first l j w0 a b) (
            before (copy_second l j w0 a b) (
              before (validate_schema_finds l (λ w h. h.2) a j.schema_size_cap_bytes) (
                before (validate_frames_file_finds l (λ w h. h.0.2) b) (
                  bind (hash_quiet (λ w h. h.0.0.2) a) (λ sm.
                    bind (hash_quiet (λ w h. h.0.0.2) b) (λ dm.
                      does_pure _ (λ w (((has_a, has_b, both), fits), accepted). record {
                        both = both;
                        has_a = has_a;
                        schema_fits = (has_a.0, fits has_a.0 has_a.1, has_a.2);
                        frames_ok = (has_b.0, accepted has_b.0 has_b.1, has_b.2);
                      })))))))))

    refuse_existing-Does :
        Does s Passed
          (refuse_existing s j)
          (λ _ w. (s.database_exists j.database (s.server w) ≡ returned false) × Passed w)
          (Both s w0 a b)
    unfolding refuse_existing
    refuse_existing-Does = bind (look_fact (λ w h. h.both) _ _) (λ there.
        weaken (refuse_if-Does (λ w h. h.1.both) there _)
          (λ _ w (absent, (asked, passed)). (asked ∙ ap returned absent, passed)))

    -- What the guard's clean-up needs, and what a success has.
    abbrev Doomed : s.World → Type 0
    Doomed w = New s w0 a b × Guarded s j w0 w

    Both-Doomed : (w : s.World) → Both s w0 a b w → Doomed w
    Both-Doomed w (n, k) = (n, Kept-Guarded l j w0 w k)

    import_from_stage-Does :
        Does s
          (λ w. (s.database_exists j.database (s.server w) ≡ returned false) × Passed w)
          (import_from_stage s j a b)
          (λ _ w. Guarded s j w0 w × Leaks s j w0 w)
          Doomed
    unfolding import_from_stage
    import_from_stage-Does =
        does_attempt _
          (λ w _ (absent, passed) sent. (
            record { intact = after w passed; reached = inr (accepted w absent passed) },
            record {
              staged = a;
              fresh = passed.both.0.fresh_a;
              left = (
                passed.has_a.0,
                l.import_database_others _ j.database a b w ∙ passed.has_a.1,
                passed.has_a.2,
              );
            },
          ))
          (λ w (absent, passed). (
            passed.both.0,
            record { intact = after w passed; reached = inr (accepted w absent passed) },
          ))
          (λ e. bind (does_ask _) (λ status. does_fail _ (λ w h. h)))
      where
        after : (w : s.World) → Passed w → Intact s w0 (s.import_database j.database a b w).1
        after w passed q n e =
            l.import_database_others q j.database a b w ∙ passed.both.1.intact q n e

        accepted :
            (w : s.World)
            → s.database_exists j.database (s.server w) ≡ returned false
            → Passed w
            → Accepted s j w0
        accepted w absent passed = record {
          target_absent = ap (s.database_exists j.database) (sym passed.both.1.untouched) ∙ absent;
          schema_fits = passed.schema_fits;
          frames_ok = passed.frames_ok;
        }

    import_staged-Does :
        Does s
          (Both s w0 a b)
          (import_staged s j a b)
          (λ _ w. Guarded s j w0 w × Leaks s j w0 w)
          Doomed
    unfolding import_staged
    import_staged-Does = bind (worse copy_checked-Does) (λ manifest.
        before (worse refuse_existing-Does)
          (before import_from_stage-Does (does_pure _ (λ w h. h))))
      where
        worse :
            {A : Type 0} {P : s.World → Type 0} {Q : A → s.World → Type 0} {m : Io s A}
            → Does s P m Q (Both s w0 a b)
            → Does s P m Q Doomed
        worse d = weaken_error d Both-Doomed

    cleanup-Does :
        {E : s.World → Type 0} → Does s Doomed (cleanup s (a ∷ b ∷ [])) (λ _. Guarded s j w0) E
    unfolding cleanup
    cleanup-Does =
        before {Q = Doomed} (does_ignore _ (λ w (n, g). (n, Guarded-remove_file a w n.fresh_a g))) (
          before {Q = Guarded s j w0}
            (does_ignore _ (λ w (n, g). Guarded-remove_file b w n.fresh_b g))
            (does_pure tt (λ w g. g)))

    -- The guard removes the copies of an import that failed.
    guarded-Does :
        Does s
          (Both s w0 a b)
          (guarded s (a ∷ b ∷ []) (import_staged s j a b))
          (λ _ w. Guarded s j w0 w × Leaks s j w0 w)
          (Guarded s j w0)
    unfolding guarded
    guarded-Does =
        does_on_error import_staged-Does (λ e. before cleanup-Does (does_fail e (λ w h. h)))

  import-Does :
      Does s (Kept s w0) (import s j) (λ _ w. Guarded s j w0 w × Leaks s j w0 w) (Guarded s j w0)
  unfolding import
  import-Does = bind (stage_first l j w0 j.schema) (λ a.
      bind (stage_second l j w0 a j.rows) (λ b.
        before (ensure_headroom-Does (λ w h. Kept-Guarded l j w0 w h.1) j) (guarded-Does a b)))

  run_import-Does :
      Does s
        (Kept s w0)
        (run_kind s import_kind j)
        (λ _ w. Guarded s j w0 w × Leaks s j w0 w)
        (Guarded s j w0)
  unfolding run_kind
  run_import-Does = before (validate_pair-Does (Kept-Guarded l j w0) _ _ _) import-Does

  Kept-start : Kept s w0 w0
  Kept-start = record { intact = λ q n e. e; untouched = refl }

module _ {s : System} (l : Lawful s) (j : Job) (k : j.kind ≡ import_kind) (p : Process s) where
  import_run :
      Does s
        (Kept s p.world)
        (run_job s j)
        (λ _ w. Guarded s j p.world w × Leaks s j p.world w)
        (Guarded s j p.world)
  import_run =
      subst
        (λ kind.
          Does s (Kept s p.world) (run_kind s kind j)
            (λ _ w. Guarded s j p.world w × Leaks s j p.world w) (Guarded s j p.world))
        (sym k) (run_import-Does l j p.world)

  -- However an import job ends, every entry of the file system that was there has what it had, and the
  -- server was asked for an import only if it had said that the target does not exist, and the job had
  -- found a schema that is UTF-8 within the cap and data that the validator accepts: those are what the two
  -- paths, links followed, were read as when the job began, where they could be read.
  pub run_job-Guarded : Guarded s j p.world (run_job s j p).1.world
  run_job-Guarded = ends import_run (λ _ w h. h.0) (λ w h. h) p (Kept-start l j p.world)

  -- A successful import job leaves a file behind that was not there and holds a copy of the schema: what
  -- its path, links followed, was read as when the job began, where it could be read.
  pub run_job-Leaks :
      (r : MigrationReport)
      → (run_job s j p).0 ≡ returned r
      → Leaks s j p.world (run_job s j p).1.world
  run_job-Leaks r done = (returns_with import_run p (Kept-start l j p.world) r done).1
