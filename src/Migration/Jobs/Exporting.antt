-- ===== src/Migration/Jobs/Exporting.antt =====
-- What the steps of `export` do to the files.
pub mod Publishing
pub mod Run
use typedb_mcp.Prelude.{
  ℕ, ◌≡◌, ◌≢◌, refl, sym, ap, ◌∙◌, ◌++◌, String, Bool, true, false, Option, none, some, List, [],
  ◌∷◌, arith, starts_with, length,
}
use typedb_mcp.Migration.Paths.{PathBuf, file_name, stage_prefix, stage_name, join}
use typedb_mcp.Migration.Paths.Names.{file_name-join, stage_name-starts_with}
use typedb_mcp.Migration.Disk.{System, Node, file, Result, returned, MigrationError, from_io, Io}
use typedb_mcp.Migration.Disk.Laws.{Lawful}
use typedb_mcp.Migration.Disk.Triple.{
  Does, bind, before, weaken, does_pure, does_fail, does_act, does_attempt, does_ignore,
  does_fetch_add, given,
}
use typedb_mcp.Migration.Checks.Quiet.{look_quiet, look_fact, ok_or-Does}
use typedb_mcp.Migration.Jobs.{
  Job, stage_path, stage_path_only, cleanup, unpublish, pump_or_unpublish, publish_noclobber,
  hash_file,
}
use typedb_mcp.Migration.Jobs.Steps.{apart}

-- An entry that is not named like a staged file.
abbrev pub Spared : PathBuf → Type 0
Spared q = (name : List ℕ) → file_name q ≡ some name → starts_with name stage_prefix ≡ false

abbrev pub Keeps : (s : System) → s.World → s.World → Type 0
Keeps s w0 w = (q : PathBuf) (n : Node) → Spared q → s.at q w0 ≡ some n → s.at q w ≡ some n

abbrev pub IsStage : (s : System) → PathBuf → Type 0
IsStage s a = (q : PathBuf) → Spared q → q ≢ s.place a

true-ne-false : {b : Bool} → b ≡ true → b ≡ false → ⊥
true-ne-false {b} t f = ground arith

module _ {s : System} (l : Lawful s) where
  spares :
      (front q : PathBuf) (n id : ℕ)
      → Spared q
      → q ≡ s.place (join front (stage_name s.pid n id))
      → ⊥
  spares front q n id spared e = true-ne-false (stage_name-starts_with s.pid n id) (
      spared (stage_name s.pid n id)
        (ap file_name e ∙ l.place_name _ ∙ file_name-join front s.pid n id))

  stage_path-IsStage :
      {P E : s.World → Type 0} (i : (w : s.World) → P w → E w) (front : PathBuf)
      → Does s P (stage_path s front) (λ a w. IsStage s a × P w) E
  unfolding stage_path
  stage_path-IsStage i front =
      bind (look_quiet i _ _)
        (λ n. bind does_fetch_add (λ id. does_pure _ (λ w h. (λ q. spares front q n id, h))))

  module _ (w0 : s.World) where
    pub stage_path_only-Keeps :
        (p : PathBuf)
        → Does s (Keeps s w0) (stage_path_only s p) (λ a w. IsStage s a × Keeps s w0 w) (Keeps s w0)
    unfolding stage_path_only
    stage_path_only-Keeps p = bind (ok_or-Does (λ w h. h) _ _) (λ front.
        before (does_act _ _ (λ w _ h _. made front w h) (made front))
          (stage_path-IsStage (λ w h. h) front))
      where
        made :
            (front : PathBuf) (w : s.World) → Keeps s w0 w → Keeps s w0 (s.create_dir_all front w).1
        made front w h q n spared e = l.create_dir_all_keeps q n front w (h q n spared e)

    pub remove_stage-Keeps :
        (a : PathBuf) (w : s.World) → IsStage s a → Keeps s w0 w → Keeps s w0 (s.remove_file a w).1
    remove_stage-Keeps a w staged h q n spared e =
        l.remove_file_others q a w (staged q spared) ∙ h q n spared e

    pub cleanup-Keeps :
        {E : s.World → Type 0} (a b : PathBuf)
        → IsStage s a
        → IsStage s b
        → Does s (Keeps s w0) (cleanup s (a ∷ b ∷ [])) (λ _. Keeps s w0) E
    unfolding cleanup
    cleanup-Keeps a b staged_a staged_b =
        before {Q = Keeps s w0} (does_ignore _ (λ w. remove_stage-Keeps a w staged_a)) (
          before {Q = Keeps s w0} (does_ignore _ (λ w. remove_stage-Keeps b w staged_b))
            (does_pure tt (λ w h. h)))

    pub hash_file-Does :
        {P : s.World → Type 0} {E : s.World → Type 0} (i : (w : s.World) → P w → E w) (p : PathBuf)
        (b : List ℕ)
        → ((w : s.World) → P w → s.at (s.place p) w ≡ some (file b))
        → Does s P (hash_file s p) (λ sm w. (sm ≡ (length b, s.sha256 b)) × P w) E
    unfolding hash_file
    hash_file-Does i p b there = bind (look_fact i _ _) (λ content. does_pure _ (λ w (e, h).
        (ap (λ c. (length c, s.sha256 c)) (l.read_file p w b content (there w h) e), h)))
