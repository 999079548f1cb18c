-- ===== src/Rows/Columns.antt =====
-- The columns of ui/src/list/List.tsx, the clicks on their headers, and the filter popup.
use transmission_ui.Prelude.{if◌then◌else◌, Text, codes, text_eq, zero, suc, List, [], ◌∷◌, ◌++◌}
use transmission_ui.Prelude.Int.{ℤ, pos, negsuc}
use transmission_ui.Prelude.Keyed.{nat_eq, text_eq_inst, contains, insert, erase}
use transmission_ui.Store.{World}
use transmission_ui.Store.Url.{sync_url}

pub record Column : Type 0 where
  pub key : Text
  pub label : Text

abbrev column : Text → Text → Column
column key label = record { key = key; label = label }

abbrev pub cols : List Column
cols =
    column (codes "name") (codes "Name")
    ∷ column (codes "size") (codes "Size")
    ∷ column (codes "progress") (codes "Progress")
    ∷ column (codes "down") (codes "Down")
    ∷ column (codes "up") (codes "Up")
    ∷ column (codes "ratio") (codes "Ratio")
    ∷ column (codes "eta") (codes "ETA")
    ∷ []

abbrev pub cols_one : List Column
cols_one =
    column (codes "name") (codes "Name")
    ∷ column (codes "size") (codes "Size")
    ∷ column (codes "progress") (codes "Progress")
    ∷ column (codes "seeds") (codes "Seeds")
    ∷ column (codes "ratio") (codes "Ratio")
    ∷ column (codes "uploaded") (codes "Uploaded")
    ∷ column (codes "added") (codes "Added on")
    ∷ column (codes "activity") (codes "Last active")
    ∷ column (codes "tracker") (codes "Tracker")
    ∷ column (codes "path") (codes "Path")
    ∷ []

abbrev pub text_cols : List Text
text_cols = codes "name" ∷ codes "tracker" ∷ codes "path" ∷ []

abbrev pub upwards : ℤ
upwards = pos 1

abbrev pub downwards : ℤ
downwards = negsuc 0

abbrev pub turned : ℤ → ℤ
turned (pos (suc zero)) = downwards
turned d = upwards

-- A click on the header of a column.
unfoldable pub header_click : Text → World → World
header_click key w =
    let dir =
      if text_eq w.snap.sort key
      then turned w.snap.sort_dir
      else if contains key text_cols
      then upwards
      else downwards in
    sync_url (record w { snap = record (w.snap) { sort = key; sort_dir = dir } })

unfoldable pub reset_sort : World → World
reset_sort w =
    sync_url (record w { snap = record (w.snap) { sort = codes "name"; sort_dir = upwards } })

abbrev label_in : Text → List Column → Text
label_in key [] = key
label_in key (c ∷ cs) = if text_eq c.key key then c.label else label_in key cs

unfoldable pub sort_label : Text → Text
sort_label key =
    if text_eq key (codes "state") then codes "State" else label_in key (cols ++ cols_one)

-- The filter popup: an attribute gets a value or loses it, or all of them do.
unfoldable pub set_adv : Text → Text → World → World
set_adv k v w = sync_url (record w { snap = record (w.snap) { adv = insert k v w.snap.adv } })

unfoldable pub remove_adv : Text → World → World
remove_adv k w = sync_url (record w { snap = record (w.snap) { adv = erase k w.snap.adv } })

unfoldable pub clear_adv : World → World
clear_adv w = sync_url (record w { snap = record (w.snap) { adv = [] } })
