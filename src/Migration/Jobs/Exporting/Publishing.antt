-- ===== src/Migration/Jobs/Exporting/Publishing.antt =====
-- What a publication does to the files.
use typedb_mcp.Prelude.{ℕ, ◌≡◌, ◌≢◌, sym, ◌∙◌, String, some, List, []}
use typedb_mcp.Migration.Paths.{PathBuf}
use typedb_mcp.Migration.Disk.{System, Node, file, act, from_io}
use typedb_mcp.Migration.Disk.Laws.{Lawful}
use typedb_mcp.Migration.Disk.Triple.{Does, before, does_fail, does_act, does_attempt}
use typedb_mcp.Migration.Checks.Quiet.{look_quiet}
use typedb_mcp.Migration.Jobs.{unpublish, pump_or_unpublish, publish_noclobber}
use typedb_mcp.Migration.Jobs.Steps.{apart}
use typedb_mcp.Migration.Jobs.Exporting.{Spared, Keeps, IsStage, remove_stage-Keeps}

module _ {s : System} (l : Lawful s) (w0 : s.World) where
  -- One publication, beside a file that stands elsewhere.
  module _ (from to x : PathBuf) (b c : List ℕ) (staged : IsStage s from)
      (other : x ≢ s.place from) where
    abbrev Ready : s.World → Type 0
    Ready w = (s.at (s.place from) w ≡ some (file b)) × (s.at x w ≡ some (file c)) × Keeps s w0 w

    -- The destination is new: nothing that is to be kept stands there.
    abbrev Made : s.World → Type 0
    Made w =
        ((q : PathBuf) (n : Node) → Spared q → s.at q w0 ≡ some n → q ≢ s.place to)
        × (s.place from ≢ s.place to)
        × (x ≢ s.place to)
        × Ready w

    creates :
        Does s Ready
          (act from_io (s.create_new to))
          (λ _ w. (s.at (s.place to) w ≡ some (file [])) × Made w)
          (Keeps s w0)
    creates =
        does_act _ _
          (λ w _ (there, beside, keeps) made.
            let nothing = (l.create_new_fresh to w made).0 in
            (
              (l.create_new_fresh to w made).1,
              (
                λ q n spared old.
                    apart (λ p. s.at p w) q (s.place to) n (keeps q n spared old) nothing,
                apart (λ p. s.at p w) (s.place from) (s.place to) (file b) there nothing,
                apart (λ p. s.at p w) x (s.place to) (file c) beside nothing,
                (
                  l.create_new_keeps _ _ to w there,
                  l.create_new_keeps _ _ to w beside,
                  after w keeps,
                ),
              ),
            ))
          (λ w (there, beside, keeps). after w keeps)
      where
        after : (w : s.World) → Keeps s w0 w → Keeps s w0 (s.create_new to w).1
        after w keeps q n spared old = l.create_new_keeps q n to w (keeps q n spared old)

    unpublishes :
        (e : String)
        → Does s Made
            (unpublish s to e)
            (λ _ w. (s.at (s.place to) w ≡ some (file b)) × Made w)
            (Keeps s w0)
    unfolding unpublish
    unpublishes e =
        before {Q = Keeps s w0}
          (does_attempt _ (λ w _ h _. after w h) after (λ f. does_fail _ (λ w h. h)))
          (does_fail _ (λ w h. h))
      where
        after : (w : s.World) → Made w → Keeps s w0 (s.remove_file to w).1
        after w (away, _, _, (_, _, keeps)) q n spared old =
            l.remove_file_others q to w (away q n spared old) ∙ keeps q n spared old

    pumps :
        Does s
          (λ w. (s.at (s.place to) w ≡ some (file [])) × Made w)
          (pump_or_unpublish s from to)
          (λ _ w. (s.at (s.place to) w ≡ some (file b)) × Made w)
          (Keeps s w0)
    unfolding pump_or_unpublish
    pumps =
        does_attempt _
          (λ w _ (empty, (away, from_to, x_to, (there, beside, keeps))) done. (
            l.pump_file from to w b there empty done,
            (
              away,
              from_to,
              x_to,
              (others w _ from_to there, others w x x_to beside, after w away keeps),
            ),
          ))
          (λ w (empty, (away, from_to, x_to, (there, beside, keeps))). (
            away,
            from_to,
            x_to,
            (others w _ from_to there, others w x x_to beside, after w away keeps),
          ))
          (λ e. unpublishes e)
      where
        others :
            (w : s.World) {n : Node} (q : PathBuf)
            → q ≢ s.place to
            → s.at q w ≡ some n
            → s.at q (s.pump from to w).1 ≡ some n
        others w q ne e = l.pump_others q from to w ne ∙ e

        after :
            (w : s.World)
            → ((q : PathBuf) (n : Node) → Spared q → s.at q w0 ≡ some n → q ≢ s.place to)
            → Keeps s w0 w
            → Keeps s w0 (s.pump from to w).1
        after w away keeps q n spared old = others w q (away q n spared old) (keeps q n spared old)

    pub publish_noclobber-Does :
        Does s Ready
          (publish_noclobber s from to)
          (λ _ w.
            (x ≢ s.place to)
            × (s.at (s.place to) w ≡ some (file b))
            × (s.at x w ≡ some (file c))
            × Keeps s w0 w)
          (Keeps s w0)
    unfolding publish_noclobber
    publish_noclobber-Does = before creates (
        before (look_quiet (λ w h. h.1.3.2) _ _) (
          before pumps (
            does_act _ _
              (λ w _ (full, (away, from_to, x_to, (there, beside, keeps))) gone. (
                x_to,
                l.remove_file_others _ from w (λ e. from_to (sym e)) ∙ full,
                l.remove_file_others x from w other ∙ beside,
                remove_stage-Keeps l w0 from w staged keeps,
              ))
              (λ w (full, (away, from_to, x_to, (there, beside, keeps))).
                remove_stage-Keeps l w0 from w staged keeps))))
