-- ===== src/Migration/Jobs/Steps.antt =====
-- Steps that the two jobs share: how they treat what stood in the file system when they began.
use typedb_mcp.Prelude.{◌≡◌, ◌≢◌, ◌∙◌, Option, none, some, inl, inr, Option-cases, arith, refl}
use typedb_mcp.Migration.Paths.{PathBuf}
use typedb_mcp.Migration.Disk.{System, Node, returned}
use typedb_mcp.Migration.Disk.Laws.{Lawful}
use typedb_mcp.Migration.Disk.Triple.{Does, bind, before, does_pure, does_act, does_fetch_add}
use typedb_mcp.Migration.Checks.Quiet.{ok_or-Does, look_quiet, ensure_filesystem_headroom-Does}
use typedb_mcp.Migration.Jobs.{Job, stage_path, stage, ensure_headroom}

pub apart :
    {A : Type 0} (f : PathBuf → Option A) (p q : PathBuf) (a : A)
    → f p ≡ some a
    → f q ≡ none
    → p ≢ q
apart f p q a h g e = ground arith

-- What stood somewhere when the job began, stands there.
abbrev pub Intact : (s : System) → s.World → s.World → Type 0
Intact s w0 w = (q : PathBuf) (n : Node) → s.at q w0 ≡ some n → s.at q w ≡ some n

module _ {s : System} {P E : s.World → Type 0} (i : (w : s.World) → P w → E w) where
  pub stage_path-Does : (front : PathBuf) → Does s P (stage_path s front) (λ _. P) E
  unfolding stage_path
  stage_path-Does front =
      bind (look_quiet i _ _) (λ n. bind does_fetch_add (λ id. does_pure _ (λ w h. h)))

  pub ensure_headroom-Does : (j : Job) → Does s P (ensure_headroom s j) (λ _. P) E
  unfolding ensure_headroom
  ensure_headroom-Does j =
      before (ensure_filesystem_headroom-Does i _ _) (ensure_filesystem_headroom-Does i _ _)

module _ {s : System} {P E : s.World → Type 0} {Q : PathBuf → s.World → Type 0}
    (i : (w : s.World) → P w → E w)
    (good : (w : s.World) (b : PathBuf)
      → P w
      → (s.create_new b w).0 ≡ returned tt
      → Q b (s.create_new b w).1)
    (bad : (w : s.World) (b : PathBuf) → P w → E (s.create_new b w).1) where
  pub stage-Does : (p : PathBuf) → Does s P (stage s p) Q E
  unfolding stage
  stage-Does p = bind (ok_or-Does i _ _) (λ front. bind (stage_path-Does i front) (λ b.
      before (does_act _ _ (λ w _ h e. good w b h e) (λ w h. bad w b h)) (does_pure b (λ w h. h))))

module _ {s : System} (l : Lawful s) (w0 : s.World) where
  -- A new file stands where nothing stood.
  pub create_new-fresh :
      (p : PathBuf) (w : s.World)
      → Intact s w0 w
      → (s.create_new p w).0 ≡ returned tt
      → s.at (s.place p) w0 ≡ none
  create_new-fresh p w h made = elim (Option-cases (s.at (s.place p) w0)) [
    | inl nothing ↦ nothing
    | inr (n, old) ↦ absurd (
        apart (λ q. s.at q w) (s.place p) (s.place p) n (h _ n old) (l.create_new_fresh p w made).0
          refl)
  ]

  pub create_new-Intact :
      (p : PathBuf) (w : s.World) → Intact s w0 w → Intact s w0 (s.create_new p w).1
  create_new-Intact p w h q n e = l.create_new_keeps q n p w (h q n e)

  -- Removing what was not there at the beginning.
  pub remove_file-Intact :
      (p : PathBuf) (w : s.World)
      → s.at (s.place p) w0 ≡ none
      → Intact s w0 w
      → Intact s w0 (s.remove_file p w).1
  remove_file-Intact p w fresh h q n e =
      l.remove_file_others q p w (apart (λ q. s.at q w0) q (s.place p) n e fresh) ∙ h q n e

  pub copy-Intact :
      (from p : PathBuf) (w : s.World)
      → s.at (s.place p) w0 ≡ none
      → s.at (s.place p) w ≡ none
      → Intact s w0 w
      → Intact s w0 (s.copy from p w).1
  copy-Intact from p w fresh nothing h q n e =
      l.copy_others q from p w nothing (apart (λ q. s.at q w0) q (s.place p) n e fresh) ∙ h q n e
