-- ===== src/Migration/Checks/Finds.antt =====
-- What the checks find out of a regular file.
use typedb_mcp.Prelude.{
  ℕ, ◌≡◌, ◌≤◌, refl, sym, ap, ◌∙◌, Bool, true, false, not, some, List, ltb, arith, length,
}
use typedb_mcp.Migration.Frames.{
  Validated, ok, invalid_frame, stuck as out_of_fuel, validate_frames,
}
use typedb_mcp.Migration.Paths.{PathBuf}
use typedb_mcp.Migration.Disk.{System, returned, file}
use typedb_mcp.Migration.Disk.Laws.{Lawful}
use typedb_mcp.Migration.Disk.Triple.{Does, bind, before, does_pure, does_fail, weaken}
use typedb_mcp.Migration.Checks.{
  lift, is_utf8, checked, validate_input, validate_schema, validate_frames_file,
}
use typedb_mcp.Migration.Checks.Quiet.{refuse_if-Does, refuse_quiet, look_quiet, look_fact}

abbrev pub Fits : ℕ → List ℕ → Type 0
Fits cap c = (is_utf8 c ≡ true) × (length c ≤ cap)

unnegated : (b : Bool) → not b ≡ false → b ≡ true
unnegated b h = ground arith

fits_cap : (cap n m : ℕ) → ltb cap n ≡ false → n ≡ m → m ≤ cap
fits_cap cap n m h e = ground arith

module _ {s : System} {P E : s.World → Type 0} (i : (w : s.World) → P w → E w) where
  validate_input_fact :
      (p : PathBuf)
      → Does s P (validate_input s p) (λ q w. (s.canonicalize p w ≡ returned q) × P w) E
  unfolding validate_input
  validate_input_fact p = before (refuse_quiet i _ _) (
      before (refuse_quiet i _ _) (
        bind (look_fact i _ _) (λ q.
          bind (look_quiet (λ w h. i w h.1) _ _)
            (λ m. before (refuse_quiet (λ w h. i w h.1) _ _) (does_pure _ (λ w h. h))))))

  checked_finds : (v : Validated) → Does s P (lift (checked v)) (λ _ w. (v ≡ ok) × P w) E
  unfolding lift checked
  checked_finds ok = does_pure tt (λ w h. (refl, h))
  checked_finds (invalid_frame e) = does_fail _ i
  checked_finds out_of_fuel = does_fail _ i

module _ {s : System} (l : Lawful s) {P E : s.World → Type 0} (i : (w : s.World) → P w → E w) where
  -- The schema passes only as UTF-8 below the cap.
  pub validate_schema_finds :
      (p : PathBuf) (limit : ℕ)
      → Does s P
          (validate_schema s p limit)
          (λ _ w. P w × ((c : List ℕ) → s.at (s.place p) w ≡ some (file c) → Fits limit c))
          E
  unfolding validate_schema
  validate_schema_finds p limit = bind (validate_input_fact i p) (λ q.
      bind (look_fact (λ w h. i w h.1) _ _) (λ m. before (refuse_if-Does (λ w h. i w h.1.1) _ _) (
        bind (look_fact (λ w h. i w h.1.1.1) _ _) (λ content.
          before (refuse_if-Does (λ w h. i w h.1.1.1.1) _ _) (
            does_pure q (λ w (utf8, (content_is, (small, (len_is, (q_is, h))))). (
              h,
              λ c there.
                  let there' = l.canonicalize_file p q w c there q_is in
                  (
                    ap is_utf8 (sym (l.read_file q w c content there' content_is))
                        ∙ unnegated _ utf8,
                    fits_cap limit m.len (length c) small (l.metadata_file q w c m there' len_is),
                  ),
            )))))))

  -- The data passes only as a stream that the validator accepts.
  pub validate_frames_file_finds :
      (p : PathBuf)
      → Does s P
          (validate_frames_file s p)
          (λ _ w.
            P w × ((d : List ℕ) → s.at (s.place p) w ≡ some (file d) → validate_frames d ≡ ok))
          E
  unfolding validate_frames_file
  validate_frames_file_finds p = bind (look_fact i _ _) (λ content.
      weaken (checked_finds (λ w h. i w h.1) (validate_frames content))
        (λ _ w (accepted, (content_is, h)). (
          h,
          λ d there.
              ap validate_frames (sym (l.read_file p w d content there content_is)) ∙ accepted,
        )))
