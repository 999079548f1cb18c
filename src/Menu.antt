-- ===== src/Menu.antt =====
-- ui/src/list/actions.ts: the menus of the rows and of the view. A menu item is a separator, a header, an entry
-- with what its click does, or a submenu of entries; `MenuItem` of ui/src/app/ui.tsx has the four in one type.
pub mod Harmless
use transmission_ui.Prelude.{
  length, any, all, Text, codes, ℕ, Bool, true, false, Option, none, some, List, [], ◌∷◌, ◌++◌,
  arith,
}
use transmission_ui.Prelude.Keyed.{nat_eq, lookup}
use transmission_ui.Prelude.Decimal.{show}
use transmission_ui.Types.{TorrentSummary, stopped, status_eq}
use transmission_ui.Store.{Snapshot, World, Dialog}
use transmission_ui.Store.{confirm_remove, labels, location, limits, rename}
use transmission_ui.Store.Actions.{toast}
use transmission_ui.Methods.{
  Call, Direction, top, up, down, bottom, start, stop, verify, reannounce, queue_move,
}

-- What the click on an entry does: it sends a call under a label, opens a dialog, copies a text, or selects all.
pub data Action : Type 0 where
  runs : (label : Text) → Call → Action
  opens : Dialog → Action
  copies : (text : Text) → (done : Text) → Action
  selects_all : Action

pub record Entry : Type 0 where
  pub icon : Text
  pub label : Text
  pub key : Text
  pub danger : Bool
  pub action : Action

pub data Item : Type 0 where
  separator : Item
  header : Text → Item
  entry : Entry → Item
  submenu : (icon : Text) → (label : Text) → List Entry → Item

abbrev plain : Text → Text → Action → Entry
plain icon label act = record { icon = icon; label = label; key = []; danger = false; action = act }

abbrev is_stopped : Option TorrentSummary → Bool
is_stopped none = false
is_stopped (some t) = status_eq t.status stopped

-- `anyStopped`
abbrev pub any_stopped : List (ℕ × TorrentSummary) → List ℕ → Bool
any_stopped by_id ids = any (λ k. is_stopped (lookup k by_id)) ids

-- `one`
abbrev pub only_one : List (ℕ × TorrentSummary) → List ℕ → Option TorrentSummary
only_one by_id (k ∷ []) = lookup k by_id
only_one by_id _ = none

abbrev resume : List ℕ → Entry
resume ids = record (plain (codes "play") (codes "Resume") (runs (codes "Resume") (start ids))) {
  key = codes "␣";
}

abbrev pause : List ℕ → Entry
pause ids = record (plain (codes "pause") (codes "Pause") (runs (codes "Pause") (stop ids))) {
  key = codes "␣";
}

abbrev resume_or_pause : Bool → List ℕ → Entry
resume_or_pause true ids = resume ids
resume_or_pause false ids = pause ids

-- `q`
abbrev moves : Direction → List ℕ → Action
moves to ids = runs (codes "Queue") (queue_move to ids)

abbrev queue_entries : List ℕ → List Entry
queue_entries ids =
    plain (codes "up") (codes "Move to top") (moves top ids)
    ∷ plain (codes "up") (codes "Move up") (moves up ids)
    ∷ plain (codes "down") (codes "Move down") (moves down ids)
    ∷ plain (codes "down") (codes "Move to bottom") (moves bottom ids)
    ∷ []

abbrev rename_item : Option TorrentSummary → List Item
rename_item none = []
rename_item (some t) = entry (plain (codes "file") (codes "Rename…") (opens (rename t.id))) ∷ []

abbrev copy_items : Option TorrentSummary → List Item
copy_items none = []
copy_items (some t) =
    entry
      (record (plain (codes "magnet") (codes "Copy magnet link")
        (copies t.magnet_link (codes "Magnet link copied"))) { key = codes "⌘C" })
    ∷ entry (plain (codes "link") (codes "Copy hash") (copies t.hash_string (codes "Hash copied")))
    ∷ separator
    ∷ []

abbrev remove_entry : List ℕ → Entry
remove_entry ids =
    record (plain (codes "trash") (codes "Remove and delete data…") (opens (confirm_remove ids))) {
      key = codes "⌫";
      danger = true;
    }

-- The items for whether one of the torrents is stopped, and for the torrent when it is one.
abbrev pub torrent_items : Bool → Option TorrentSummary → List ℕ → List Item
torrent_items some_stopped one ids =
    (entry (resume_or_pause some_stopped ids)
      ∷ entry (
          plain (codes "globe") (codes "Re-announce") (runs (codes "Re-announce") (reannounce ids)))
      ∷ entry
          (plain (codes "check") (codes "Verify local data") (runs (codes "Verify") (verify ids)))
      ∷ separator
      ∷ submenu (codes "sort") (codes "Queue position") (queue_entries ids)
      ∷ entry (plain (codes "tag") (codes "Labels…") (opens (labels ids)))
      ∷ entry (plain (codes "folder") (codes "Set location…") (opens (location ids)))
      ∷ [])
    ++ rename_item one
    ++ (entry (plain (codes "gear") (codes "Limits & priority…") (opens (limits ids)))
        ∷ separator
        ∷ [])
    ++ copy_items one
    ++ (entry (remove_entry ids) ∷ [])

unfoldable pub torrent_menu : List (ℕ × TorrentSummary) → List ℕ → List Item
torrent_menu by_id ids = torrent_items (any_stopped by_id ids) (only_one by_id ids) ids

unfoldable pub view_menu : List ℕ → List Item
view_menu ids =
    header (codes "Everything in this view · " ++ show (length ids))
    ∷ entry (plain (codes "play") (codes "Resume all") (runs (codes "Resume all") (start ids)))
    ∷ entry (plain (codes "pause") (codes "Pause all") (runs (codes "Pause all") (stop ids)))
    ∷ entry (
        plain (codes "globe") (codes "Re-announce all")
          (runs (codes "Re-announce all") (reannounce ids)))
    ∷ entry (plain (codes "check") (codes "Verify all") (runs (codes "Verify all") (verify ids)))
    ∷ separator
    ∷ entry (record (plain (codes "check") (codes "Select all") selects_all) { key = codes "⌘A" })
    ∷ []

-- `copyText`, once the clipboard has answered.
unfoldable pub copy_ends : Bool → Text → World → World
copy_ends true done w = toast done w
copy_ends false done w = toast (codes "Copy failed") w
