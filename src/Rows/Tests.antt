-- ===== src/Rows/Tests.antt =====
-- The list's box and clicks at concrete inputs.
use transmission_ui.Prelude.{
  if◌then◌else◌, codes, ℕ, ◌≡◌, refl, ◌↔◌, true, false, none, some, List, [], ◌∷◌, map,
}
use transmission_ui.Prelude.Keyed.{nat_eq, text_eq_inst}
use transmission_ui.Store.{World, Removing}
use transmission_ui.Store.Initial.{Stored, initial}
use transmission_ui.Store.Actions.{select_all_visible, is_nonempty}
use transmission_ui.Prelude.Decimal.{show}
use transmission_ui.Rows.{Click, row_click, box_of}
use transmission_ui.Rows.{on, some_on}
use transmission_ui.Rows.Progress.{failed, active, queued, removal_of, is_over, bar_label}
use transmission_ui.Rows.Box.{is_on, clicked, is_full, box_of-select_all_visible}

abbrev stored : Stored
stored = record { dismissed = []; density = []; sidebar_w = none }

abbrev at_start : World
at_start = initial [] stored

abbrev three_rows : List ℕ
three_rows = 4 ∷ 2 ∷ 7 ∷ []

-- Two of three rows are selected.
abbrev two_chosen : World
two_chosen = record at_start {
  view_order = three_rows;
  snap = record (at_start.snap) { selected = 7 ∷ 4 ∷ []; focus_id = none };
}

box_of-select_all_visible_example :
    ((box_of three_rows (7 ∷ 4 ∷ []) ≡ on) ↔ (is_full three_rows (7 ∷ 4 ∷ []) ≡ true))
    × ((select_all_visible two_chosen).snap.selected
        ≡ (if is_on (box_of three_rows (7 ∷ 4 ∷ [])) then [] else three_rows))
    × (box_of three_rows (select_all_visible two_chosen).snap.selected
        ≡ clicked (is_nonempty three_rows) (box_of three_rows (7 ∷ 4 ∷ [])))
box_of-select_all_visible_example =
    box_of-select_all_visible two_chosen (refl, (refl, (refl, tt))) (refl, (refl, tt))

two_of_three : box_of three_rows (7 ∷ 4 ∷ []) ≡ some_on
unfolding box_of
two_of_three = refl

abbrev shift_on : ℕ → Click
shift_on k = record { id = k; on_box = false; meta = false; ctrl = false; shift = true }

-- From the first of the selected rows up to the one that was clicked.
range_is_added : (row_click three_rows (shift_on 2) two_chosen).snap.selected ≡ 7 ∷ 4 ∷ 2 ∷ []
unfolding row_click
range_is_added = refl

-- A torrent has the focus that the list does not show.
abbrev focus_hidden : World
focus_hidden = record at_start {
  snap = record (at_start.snap) { selected = []; focus_id = some 9 };
}

-- A shift-click leaves the clicked row unselected then.
hidden_focus : (row_click three_rows (shift_on 2) focus_hidden).snap.selected ≡ []
unfolding row_click
hidden_focus = refl

abbrev batch : Removing
batch = record {
  token = 1;
  ids = 4 ∷ 2 ∷ 7 ∷ [];
  done = 1;
  active = some 2;
  failed = record { id = 4; msg = codes "busy" } ∷ [];
  stopped = false;
}

rows_of_batch :
    map (removal_of batch) (4 ∷ 2 ∷ 7 ∷ 9 ∷ [])
    ≡ some (failed (codes "Failed: busy"))
      ∷ some (active (codes "Deleting files…"))
      ∷ some (queued (codes "Queued for removal"))
      ∷ none
      ∷ []
unfolding removal_of
rows_of_batch = refl

bar_reads : bar_label batch ≡ codes "Deleting 2 of 3"
unfolding bar_label is_over show
bar_reads = refl
