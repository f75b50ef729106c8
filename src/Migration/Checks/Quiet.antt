-- ===== src/Migration/Checks/Quiet.antt =====
-- The checks only look: what holds of the world before them holds after them, and what they find out.
use typedb_mcp.Prelude.{ℕ, ◌≡◌, refl, String, Bool, true, false, Option, none, some}
use typedb_mcp.Migration.Paths.{PathBuf}
use typedb_mcp.Migration.Disk.{Result, returned, raised, System, MigrationError, look}
use typedb_mcp.Migration.Disk.Triple.{Does, bind, before, does_pure, does_fail, does_look, does_ask}
use typedb_mcp.Migration.Checks.{
  lift, ok_or, refuse_if, ensure_filesystem_headroom, normalize_destination, validate_input,
  validate_schema, validate_pair, validate_destination, validate_export_inputs,
}

module _ {s : System} {P E : s.World → Type 0} (i : (w : s.World) → P w → E w) where
  pub lift-Does : {A : Type 0} (r : Result MigrationError A) → Does s P (lift r) (λ _. P) E
  unfolding lift
  lift-Does (returned a) = does_pure a (λ w h. h)
  lift-Does (raised e) = does_fail e i

  pub ok_or-Does :
      {A : Type 0} (o : Option A) (e : MigrationError) → Does s P (ok_or o e) (λ _. P) E
  unfolding ok_or
  ok_or-Does none e = does_fail e i
  ok_or-Does (some a) e = does_pure a (λ w h. h)

  pub refuse_if-Does :
      (b : Bool) (e : MigrationError) → Does s P (refuse_if b e) (λ _ w. (b ≡ false) × P w) E
  unfolding refuse_if
  refuse_if-Does true e = does_fail e i
  refuse_if-Does false e = does_pure tt (λ w h. (refl, h))

  pub refuse_quiet : (b : Bool) (e : MigrationError) → Does s P (refuse_if b e) (λ _. P) E
  unfolding refuse_if
  refuse_quiet true e = does_fail e i
  refuse_quiet false e = does_pure tt (λ w h. h)

  pub look_quiet :
      {A : Type 0} (wrap : String → MigrationError) (f : s.World → Result String A)
      → Does s P (look wrap f) (λ _. P) E
  look_quiet wrap f = does_look wrap f (λ w a h e. h) i

  pub look_fact :
      {A : Type 0} (wrap : String → MigrationError) (f : s.World → Result String A)
      → Does s P (look wrap f) (λ a w. (f w ≡ returned a) × P w) E
  look_fact wrap f = does_look wrap f (λ w a h e. (e, h)) i

  pub ensure_filesystem_headroom-Does :
      (path : PathBuf) (required : ℕ)
      → Does s P (ensure_filesystem_headroom s path required) (λ _. P) E
  unfolding ensure_filesystem_headroom
  ensure_filesystem_headroom-Does path required = bind (does_ask _) (λ space. lift-Does _)

  pub normalize_destination-Does : (p : PathBuf) → Does s P (normalize_destination s p) (λ _. P) E
  unfolding normalize_destination
  normalize_destination-Does p = before (refuse_quiet _ _) (
      bind (ok_or-Does _ _) (λ front.
        bind (look_quiet _ _) (λ dir. bind (ok_or-Does _ _) (λ name. does_pure _ (λ w h. h)))))

  pub validate_input-Does : (p : PathBuf) → Does s P (validate_input s p) (λ _. P) E
  unfolding validate_input
  validate_input-Does p = before (refuse_quiet _ _) (
      before (refuse_quiet _ _) (
        bind (look_quiet _ _)
          (λ q. bind (look_quiet _ _) (λ m. before (refuse_quiet _ _) (does_pure _ (λ w h. h))))))

  pub validate_schema-Does : (p : PathBuf) (cap : ℕ) → Does s P (validate_schema s p cap) (λ _. P) E
  unfolding validate_schema
  validate_schema-Does p cap = bind (validate_input-Does p) (λ q. bind (look_quiet _ _) (λ m.
      before (refuse_quiet _ _)
        (bind (look_quiet _ _) (λ content. before (refuse_quiet _ _) (does_pure _ (λ w h. h))))))

  pub validate_pair-Does :
      (schema rows : PathBuf) (cap : ℕ) → Does s P (validate_pair s schema rows cap) (λ _. P) E
  unfolding validate_pair
  validate_pair-Does schema rows cap =
      bind (validate_schema-Does schema cap)
        (λ a. bind (validate_input-Does rows) (λ b. refuse_quiet _ _))

  validate_destination-Does : (p : PathBuf) → Does s P (validate_destination s p) (λ _. P) E
  unfolding validate_destination
  validate_destination-Does p = before (refuse_quiet _ _) (
      before (refuse_quiet _ _) (
        bind (does_ask _) (λ there. bind (does_ask _) (λ seen.
          before (refuse_quiet _ _)
            (bind (ok_or-Does _ _) (λ front. bind (look_quiet _ _) (λ m. refuse_quiet _ _)))))))

  pub validate_export_inputs-Does :
      (schema rows : PathBuf) → Does s P (validate_export_inputs s schema rows) (λ _. P) E
  unfolding validate_export_inputs
  validate_export_inputs-Does schema rows = bind (normalize_destination-Does schema) (λ a.
      bind (normalize_destination-Does rows) (λ b.
        before (validate_destination-Does a)
          (before (validate_destination-Does b) (refuse_quiet _ _))))
