-- ===== src/Migration/Jobs/Importing.antt =====
-- What `import` does to the files and to the server.
pub mod Run
use typedb_mcp.Prelude.{
  ℕ, ◌≡◌, ◌≢◌, ◌⊎◌, inl, inr, sym, ◌∙◌, String, Bool, true, false, Option, none, some, List, [],
  ◌∷◌,
}
use typedb_mcp.Migration.Frames.{ok, validate_frames}
use typedb_mcp.Migration.Paths.{PathBuf}
use typedb_mcp.Migration.Disk.{
  System, Node, file, Result, returned, MigrationError, backend, act, attempt, from_io,
}
use typedb_mcp.Migration.Disk.Laws.{Lawful}
use typedb_mcp.Migration.Disk.Triple.{
  Does, bind, before, weaken, does_pure, does_fail, does_look, does_act, does_attempt,
  does_on_error, does_ignore, does_ask,
}
use typedb_mcp.Migration.Checks.Quiet.{look_quiet, look_fact, validate_pair-Does}
use typedb_mcp.Migration.Checks.Finds.{Fits, validate_schema_finds, validate_frames_file_finds}
use typedb_mcp.Migration.Jobs.{
  Job, Manifest, MigrationReport, stage, cleanup, guarded, hash_file, copy_checked, refuse_existing,
  import_from_stage, import_staged, import,
}
use typedb_mcp.Migration.Jobs.Steps.{
  apart, Intact, stage-Does, ensure_headroom-Does, create_new-fresh, create_new-Intact,
  remove_file-Intact, copy-Intact,
}

-- The files that were there are there, and the server has not been asked for a change.
pub record Kept (s : System) (w0 w : s.World) : Type 0 where
  pub intact : Intact s w0 w
  pub untouched : s.server w ≡ s.server w0

-- One file is staged; two are.
pub record Staged (s : System) (w0 : s.World) (a : PathBuf) (w : s.World) : Type 0 where
  pub kept : Kept s w0 w
  pub fresh : s.at (s.place a) w0 ≡ none
  pub made : s.at (s.place a) w ≡ some (file [])

-- Two files that were not there.
pub record New (s : System) (w0 : s.World) (a b : PathBuf) : Type 0 where
  pub fresh_a : s.at (s.place a) w0 ≡ none
  pub fresh_b : s.at (s.place b) w0 ≡ none
  pub separate : s.place a ≢ s.place b

abbrev pub Both : (s : System) (w0 : s.World) (a b : PathBuf) → s.World → Type 0
Both s w0 a b w = New s w0 a b × Kept s w0 w

-- The bytes are what the path is read as when the job begins, links followed, if it can be read then.
abbrev pub IsReadAs : (s : System) (w0 : s.World) → PathBuf → List ℕ → Type 0
IsReadAs s w0 p b = (c : List ℕ) → s.read p w0 ≡ returned c → b ≡ c

-- The path `to` has a file of what `from` is read as.
abbrev pub HasCopy : (s : System) (w0 : s.World) (from to : PathBuf) → s.World → Type 0
HasCopy s w0 from to w = (b : List ℕ) × (s.at (s.place to) w ≡ some (file b)) × IsReadAs s w0 from b

-- What the job requires of its target and of its two files.
pub record Accepted (s : System) (j : Job) (w0 : s.World) : Type 0 where
  pub target_absent : s.database_exists j.database (s.server w0) ≡ returned false
  pub schema_fits : (b : List ℕ) × Fits j.schema_size_cap_bytes b × IsReadAs s w0 j.schema b
  pub frames_ok : (b : List ℕ) × (validate_frames b ≡ ok) × IsReadAs s w0 j.rows b

-- The files that were there are there, and the server was left alone unless everything was accepted.
pub record Guarded (s : System) (j : Job) (w0 w : s.World) : Type 0 where
  pub intact : Intact s w0 w
  pub reached : (s.server w ≡ s.server w0) ⊎ Accepted s j w0

-- A new file holds the schema.
pub record Leaks (s : System) (j : Job) (w0 w : s.World) : Type 0 where
  pub staged : PathBuf
  pub fresh : s.at (s.place staged) w0 ≡ none
  pub left : HasCopy s w0 j.schema staged w

module _ {s : System} (l : Lawful s) (j : Job) (w0 : s.World) where
  Kept-create_new : (p : PathBuf) (w : s.World) → Kept s w0 w → Kept s w0 (s.create_new p w).1
  Kept-create_new p w k = record {
    intact = create_new-Intact l w0 p w k.intact;
    untouched = l.create_new_server p w ∙ k.untouched;
  }

  Kept-remove_file :
      (p : PathBuf) (w : s.World)
      → s.at (s.place p) w0 ≡ none
      → Kept s w0 w
      → Kept s w0 (s.remove_file p w).1
  Kept-remove_file p w fresh k = record {
    intact = remove_file-Intact l w0 p w fresh k.intact;
    untouched = l.remove_file_server p w ∙ k.untouched;
  }

  Kept-copy :
      (from p : PathBuf) (w : s.World)
      → s.at (s.place p) w0 ≡ none
      → s.at (s.place p) w ≡ none
      → Kept s w0 w
      → Kept s w0 (s.copy from p w).1
  Kept-copy from p w fresh nothing k = record {
    intact = copy-Intact l w0 from p w fresh nothing k.intact;
    untouched = l.copy_server from p w ∙ k.untouched;
  }

  copied-HasCopy :
      (from p : PathBuf) (w : s.World)
      → s.at (s.place p) w ≡ none
      → Intact s w0 w
      → (s.copy from p w).0 ≡ returned tt
      → HasCopy s w0 from p (s.copy from p w).1
  copied-HasCopy from p w nothing intact copied =
      let (b, is_read, made) = l.copy_file from p w nothing copied in
      (b, made, λ c was. l.read_same from w0 w c b intact was is_read)

  pub Kept-Guarded : (w : s.World) → Kept s w0 w → Guarded s j w0 w
  Kept-Guarded w k = record { intact = k.intact; reached = inl k.untouched }

  pub stage_first : (p : PathBuf) → Does s (Kept s w0) (stage s p) (Staged s w0) (Guarded s j w0)
  stage_first =
      stage-Does Kept-Guarded
        (λ w a k made. record {
          kept = Kept-create_new a w k;
          fresh = create_new-fresh l w0 a w k.intact made;
          made = (l.create_new_fresh a w made).1;
        })
        (λ w a k. Kept-Guarded _ (Kept-create_new a w k))

  pub stage_second :
      (a p : PathBuf) → Does s (Staged s w0 a) (stage s p) (Both s w0 a) (Guarded s j w0)
  stage_second a =
      stage-Does (λ w h. Kept-Guarded w h.kept)
        (λ w b h made. (
          record {
            fresh_a = h.fresh;
            fresh_b = create_new-fresh l w0 b w h.kept.intact made;
            separate =
                apart (λ q. s.at q w) (s.place a) (s.place b) (file []) h.made
                  (l.create_new_fresh b w made).0;
          },
          Kept-create_new b w h.kept,
        ))
        (λ w b h. Kept-Guarded _ (Kept-create_new b w h.kept))

  module _ (a b : PathBuf) where
    pub remove_first :
        Does s
          (Both s w0 a b)
          (act from_io (s.remove_file a))
          (λ _ w. (s.at (s.place a) w ≡ none) × Both s w0 a b w)
          (Both s w0 a b)
    remove_first =
        does_act _ _
          (λ w _ (n, k) gone. (l.remove_file_gone a w gone, (n, Kept-remove_file a w n.fresh_a k)))
          (λ w (n, k). (n, Kept-remove_file a w n.fresh_a k))

    pub remove_second :
        Does s
          (λ w. (s.at (s.place a) w ≡ none) × Both s w0 a b w)
          (act from_io (s.remove_file b))
          (λ _ w. (s.at (s.place a) w ≡ none) × (s.at (s.place b) w ≡ none) × Both s w0 a b w)
          (Both s w0 a b)
    remove_second =
        does_act _ _
          (λ w _ (none_a, (n, k)) gone. (
            l.remove_file_others (s.place a) b w n.separate ∙ none_a,
            l.remove_file_gone b w gone,
            (n, Kept-remove_file b w n.fresh_b k),
          ))
          (λ w (_, (n, k)). (n, Kept-remove_file b w n.fresh_b k))

    pub copy_first :
        Does s
          (λ w. (s.at (s.place a) w ≡ none) × (s.at (s.place b) w ≡ none) × Both s w0 a b w)
          (act from_io (s.copy j.schema a))
          (λ _ w. HasCopy s w0 j.schema a w × (s.at (s.place b) w ≡ none) × Both s w0 a b w)
          (Both s w0 a b)
    copy_first =
        does_act _ _
          (λ w _ (none_a, none_b, (n, k)) copied. (
            copied-HasCopy j.schema a w none_a k.intact copied,
            l.copy_others (s.place b) j.schema a w none_a (λ e. n.separate (sym e)) ∙ none_b,
            (n, Kept-copy j.schema a w n.fresh_a none_a k),
          ))
          (λ w (none_a, none_b, (n, k)). (n, Kept-copy j.schema a w n.fresh_a none_a k))

    pub copy_second :
        Does s
          (λ w. HasCopy s w0 j.schema a w × (s.at (s.place b) w ≡ none) × Both s w0 a b w)
          (act from_io (s.copy j.rows b))
          (λ _ w. HasCopy s w0 j.schema a w × HasCopy s w0 j.rows b w × Both s w0 a b w)
          (Both s w0 a b)
    copy_second =
        does_act _ _
          (λ w _ (has_a, none_b, (n, k)) copied. (
            (has_a.0, l.copy_others (s.place a) j.rows b w none_b n.separate ∙ has_a.1, has_a.2),
            copied-HasCopy j.rows b w none_b k.intact copied,
            (n, Kept-copy j.rows b w n.fresh_b none_b k),
          ))
          (λ w (_, none_b, (n, k)). (n, Kept-copy j.rows b w n.fresh_b none_b k))
