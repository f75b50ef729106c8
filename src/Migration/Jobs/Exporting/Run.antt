-- ===== src/Migration/Jobs/Exporting/Run.antt =====
-- The run of `export` and of an export job.
use mathlib.Core.Path.{subst}
use typedb_mcp.Prelude.{ℕ, ◌≡◌, ◌≢◌, refl, sym, ◌∙◌, some, List, [], ◌∷◌, length}
use typedb_mcp.Migration.Paths.{PathBuf}
use typedb_mcp.Migration.Disk.{System, file, returned, export_kind, Process}
use typedb_mcp.Migration.Disk.Laws.{Lawful}
use typedb_mcp.Migration.Disk.Triple.{
  Does, bind, before, ends, returns_with, given, adapt, does_pure, does_fail, does_attempt,
  does_on_error,
}
use typedb_mcp.Migration.Checks.Quiet.{validate_export_inputs-Does}
use typedb_mcp.Migration.Jobs.{
  Job, MigrationReport, manifest_of, guarded, publish_second, export_to_stage, publish_both,
  export_staged, export, run_kind, run_job,
}
use typedb_mcp.Migration.Jobs.Exporting.Publishing.{publish_noclobber-Does}
use typedb_mcp.Migration.Jobs.Steps.{ensure_headroom-Does}
use typedb_mcp.Migration.Jobs.Exporting.{
  Keeps, IsStage, stage_path_only-Keeps, cleanup-Keeps, hash_file-Does,
}

-- Both files of the job hold what the report counts and hashes.
pub record Published (s : System) (j : Job) (r : MigrationReport) (w : s.World) : Type 0 where
  pub schema_bytes : List ℕ
  pub data_bytes : List ℕ
  pub schema_there : s.at (s.place j.schema) w ≡ some (file schema_bytes)
  pub data_there : s.at (s.place j.rows) w ≡ some (file data_bytes)
  pub counted :
      r.manifest
      ≡ manifest_of
          (length schema_bytes, s.sha256 schema_bytes)
          (length data_bytes, s.sha256 data_bytes)

module _ {s : System} (l : Lawful s) (j : Job) (w0 : s.World) where
  module _ (a b : PathBuf) (staged_a : IsStage s a) (staged_b : IsStage s b) where
    -- The staged files that the backend made.
    abbrev Exported : List ℕ × List ℕ → s.World → Type 0
    Exported (c, d) w =
        (s.place b ≢ s.place a)
        × (s.at (s.place a) w ≡ some (file c))
        × (s.at (s.place b) w ≡ some (file d))
        × Keeps s w0 w

    export_to_stage-Does :
        Does s
          (Keeps s w0)
          (export_to_stage s j a b)
          (λ _ w. (x : List ℕ × List ℕ) × Exported x w)
          (Keeps s w0)
    unfolding export_to_stage
    export_to_stage-Does =
        does_attempt _
          (λ w _ h done.
            let (separate, (c, at_a), (d, at_b)) = l.export_database_files j.database a b w done in
            ((c, d), (separate, at_a, at_b, after w h)))
          after (λ e. before (cleanup-Keeps l w0 a b staged_a staged_b) (does_fail _ (λ w h. h)))
      where
        after : (w : s.World) → Keeps s w0 w → Keeps s w0 (s.export_database j.database a b w).1
        after w h q n spared old =
            l.export_database_others q j.database a b w (staged_a q spared) (staged_b q spared)
            ∙ h q n spared old

    publish_second-Does :
        (c d : List ℕ)
        → s.place j.schema ≢ s.place b
        → Does s
            (λ w.
              (s.at (s.place b) w ≡ some (file d))
              × (s.at (s.place j.schema) w ≡ some (file c))
              × Keeps s w0 w)
            (publish_second s j b)
            (λ _ w.
              (s.place j.schema ≢ s.place j.rows)
              × (s.at (s.place j.rows) w ≡ some (file d))
              × (s.at (s.place j.schema) w ≡ some (file c))
              × Keeps s w0 w)
            (Keeps s w0)
    unfolding publish_second
    publish_second-Does c d other =
        does_on_error (publish_noclobber-Does l w0 b j.rows (s.place j.schema) d c staged_b other)
          (λ e. does_fail _ (λ w h. h))

    -- What the two hashes said, and that the staged files are two.
    record Hashed (c d : List ℕ) (sm dm : ℕ × List ℕ) : Type 0 where
      separate : s.place b ≢ s.place a
      schema_hash : sm ≡ (length c, s.sha256 c)
      data_hash : dm ≡ (length d, s.sha256 d)

    publishes :
        (c d : List ℕ) (sm dm : ℕ × List ℕ)
        → Hashed c d sm dm
        → Does s
            (λ w.
              (s.at (s.place a) w ≡ some (file c))
              × (s.at (s.place b) w ≡ some (file d))
              × Keeps s w0 w)
            (publish_both s j a b sm dm)
            (λ r w. Published s j r w × Keeps s w0 w)
            (Keeps s w0)
    unfolding publish_both
    publishes c d sm dm h =
        before (publish_noclobber-Does l w0 a j.schema (s.place b) c d staged_a h.separate) (
          adapt
            (given (λ other. before (publish_second-Does c d other) (
              does_pure _ (λ w (_, data_there, schema_there, keeps). (
                record {
                  schema_bytes = c;
                  data_bytes = d;
                  schema_there = schema_there;
                  data_there = data_there;
                  counted = rw h.schema_hash (rw h.data_hash refl);
                },
                keeps,
              )))))
            (λ w (other, at_schema, at_b, keeps). ((λ e. other (sym e)), (at_b, at_schema, keeps))))

    export_staged-Does :
        Does s
          (Keeps s w0)
          (export_staged s j a b)
          (λ r w. Published s j r w × Keeps s w0 w)
          (Keeps s w0)
    unfolding export_staged
    export_staged-Does = before export_to_stage-Does (
        given (λ (c, d). bind (hash_file-Does l w0 (λ w h. h.3) a c (λ w h. h.1)) (λ sm.
          bind (hash_file-Does l w0 (λ w h. h.1.3) b d (λ w h. h.1.2)) (λ dm.
            adapt (given (λ h. publishes c d sm dm h))
              (λ w (of_d, (of_c, (separate, at_a, at_b, keeps))). (
                record { separate = separate; schema_hash = of_c; data_hash = of_d },
                (at_a, at_b, keeps),
              ))))))

    guarded-Does :
        Does s
          (Keeps s w0)
          (guarded s (a ∷ b ∷ []) (export_staged s j a b))
          (λ r w. Published s j r w × Keeps s w0 w)
          (Keeps s w0)
    unfolding guarded
    guarded-Does =
        does_on_error export_staged-Does
          (λ e. before (cleanup-Keeps l w0 a b staged_a staged_b) (does_fail e (λ w h. h)))

  export-Does :
      Does s (Keeps s w0) (export s j) (λ r w. Published s j r w × Keeps s w0 w) (Keeps s w0)
  unfolding export
  export-Does = before (ensure_headroom-Does (λ w h. h) j) (
      bind (stage_path_only-Keeps l w0 j.schema) (λ a. given (λ staged_a.
        bind (stage_path_only-Keeps l w0 j.rows)
          (λ b. given (λ staged_b. guarded-Does a b staged_a staged_b)))))

  run_export-Does :
      Does s
        (Keeps s w0)
        (run_kind s export_kind j)
        (λ r w. Published s j r w × Keeps s w0 w)
        (Keeps s w0)
  unfolding run_kind
  run_export-Does = before (validate_export_inputs-Does (λ w h. h) _ _) export-Does

module _ {s : System} (l : Lawful s) (j : Job) (k : j.kind ≡ export_kind) (p : Process s) where
  export_run :
      Does s
        (Keeps s p.world)
        (run_job s j)
        (λ r w. Published s j r w × Keeps s p.world w)
        (Keeps s p.world)
  export_run =
      subst
        (λ kind.
          Does s (Keeps s p.world) (run_kind s kind j)
            (λ r w. Published s j r w × Keeps s p.world w) (Keeps s p.world))
        (sym k) (run_export-Does l j p.world)

  -- However an export job ends, every entry of the file system that was there and is not named like a
  -- staged file has what it had.
  pub run_job-Keeps : Keeps s p.world (run_job s j p).1.world
  run_job-Keeps = ends export_run (λ _ w h. h.1) (λ w h. h) p (λ q n spared old. old)

  -- When an export job succeeds, its two destinations hold the bytes that the report counts and hashes.
  pub run_job-Published :
      (r : MigrationReport)
      → (run_job s j p).0 ≡ returned r
      → Published s j r (run_job s j p).1.world
  run_job-Published r done = (returns_with export_run p (λ q n spared old. old) r done).0
