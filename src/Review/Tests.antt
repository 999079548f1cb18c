-- ===== src/Review/Tests.antt =====
-- A short review: one entry kept, one deleted, then the run.
use transmission_ui.Prelude.{Text, codes, text_eq, ◌≡◌, refl, none, some, [], ◌∷◌, ◌++◌}
use transmission_ui.Prelude.Keyed.{nat_eq, text_eq_inst}
use transmission_ui.Orphans.{file, Orphan, OrphanScan}
use transmission_ui.Review.{del, keep_it, confirm, remember, Review, opened, decide, start_run}
use transmission_ui.Review.Marked.{AsksMarked, Step-AsksMarked}
use transmission_ui.Review.Keeps.{IsRemembered, Reach-IsRemembered}
use transmission_ui.Review.Steps.{Reach, here, next, decides, asks, runs}

abbrev entry : Text → Orphan
entry id = record {
  id = id;
  group = codes "/d";
  path = codes "/d/" ++ id;
  kind = file;
  size = 10;
  files = 1;
  mtime = 0;
  flags = none;
  inside = none;
  match = none;
  name = none;
  hash = none;
  types = none;
  children = none;
}

abbrev scan : OrphanScan
scan = record {
  scan_id = codes "s";
  at = 0;
  took_ms = 1;
  looked = 7;
  hidden_kept = 0;
  warnings = none;
  entries = entry (codes "a") ∷ entry (codes "b") ∷ entry (codes "c") ∷ [];
}

abbrev one_kept : Review
one_kept = decide (some keep_it) (opened scan)

abbrev two_decided : Review
two_decided = decide (some del) one_kept

abbrev asked : Review
asked = record two_decided { phase = confirm }

decided_both :
    (two_decided.dec ≡ (codes "a", keep_it) ∷ (codes "b", del) ∷ [])
    × (two_decided.cur ≡ codes "c")
    × (two_decided.keeps ≡ remember (codes "a") ∷ [])
unfolding decide text_eq
decided_both = (refl, refl, refl)

Reach-asked : Reach (opened scan) asked
unfolding decide text_eq
Reach-asked =
    next
      (next (next here (decides (some keep_it) (opened scan) refl refl))
        (decides (some del) one_kept refl refl))
      (asks two_decided refl refl)

run_asks_b : (start_run asked).sent ≡ codes "b" ∷ []
unfolding start_run decide text_eq
run_asks_b = refl

Step-AsksMarked_example : AsksMarked asked (start_run asked)
unfolding decide text_eq
Step-AsksMarked_example =
    Step-AsksMarked scan asked (start_run asked) Reach-asked (runs asked refl refl)

Reach-IsRemembered_example : IsRemembered asked
Reach-IsRemembered_example = Reach-IsRemembered scan asked Reach-asked
