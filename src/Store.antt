-- ===== src/Store.antt =====
-- ui/src/state/store.ts: the snapshot, and the variables of the module that its functions share.
-- What `await` suspends is a value here: the poll pass, the removal runs, the inspector requests and
-- the free-space queries that wait for an answer.
pub mod Url
pub mod Merge
pub mod Detail
pub mod Polling
pub mod Actions
pub mod Removal
pub mod Layout
pub mod Initial
pub mod Steps
pub mod Frames
pub mod Kept
pub mod View
mod Tests
use transmission_ui.Prelude.{ℕ, Bool, List, Option, Text}
use transmission_ui.Prelude.Int.{ℤ}
use transmission_ui.Json.{Json}
use transmission_ui.Types.{TorrentSummary, Session, SessionStats, FreeSpace}
use transmission_ui.Orphans.{OrphanScan}

-- A browser `File` is a handle.
pub data Dialog : Type 0 where
  no_dialog : Dialog
  add_dialog : (magnet : Option Text) (files : Option (List ℕ)) → Dialog
  settings : (section : Option Text) (scan : Option Bool) → Dialog
  orphan_review : OrphanScan → Dialog
  confirm_remove labels location limits : (ids : List ℕ) → Dialog
  rename trackers : (id : ℕ) → Dialog

pub data Connection : Type 0 where
  connecting connected unauthorized failed : Connection

pub data InspectorTab : Type 0 where
  overview files peers trackers_tab : InspectorTab

pub data Density : Type 0 where
  compact comfortable : Density

pub record Rates : Type 0 where
  pub down : ℕ
  pub up : ℕ

pub record Failure : Type 0 where
  pub id : ℕ
  pub msg : Text

-- A bulk removal in progress, or a finished one whose failures are still shown.
pub record Removing : Type 0 where
  pub token : ℕ
  pub ids : List ℕ
  pub done : ℕ
  pub active : Option ℕ
  pub failed : List Failure
  pub stopped : Bool

-- `TorrentExtra`: the id, and the other properties that were fetched.
pub record Extra : Type 0 where
  pub id : ℕ
  pub props : List (Text × Json)

-- `sort`, `filter` and the values of `adv` come from the address bar unchecked, so they are texts.
pub record Snapshot : Type 0 where
  pub torrents : List TorrentSummary
  pub by_id : List (ℕ × TorrentSummary)
  pub detail : Option Extra
  pub session : Option Session
  pub stats : Option SessionStats
  pub history : List Rates
  pub free_space : List (Text × FreeSpace)
  pub connection : Connection
  pub last_error : Text
  pub filter : Text
  pub adv : List (Text × Text)
  pub search : Text
  pub sort : Text
  pub sort_dir : ℤ
  pub selected : List ℕ
  pub focus_id : Option ℕ
  pub inspector_tab : InspectorTab
  pub dialog : Dialog
  pub dismissed : List Text
  pub toast : Text
  pub removing : Option Removing
  pub density : Density
  pub sidebar_w : ℕ

-- The variables of `pollOnce` while it waits.
pub record Pass : Type 0 where
  pub forced : Bool
  pub full : Bool
  pub reads_session : Bool

-- A timer that the browser holds: the handle that `setTimeout` gave, and the delay.
pub record Timer : Type 0 where
  pub handle : ℕ
  pub delay : ℕ

-- The polling variables of the module, the timers that are armed with the number of the next handle, and the
-- passes that wait. `timer` is the handle that the module remembers: the browser may hold others.
pub record Poll : Type 0 where
  pub timer : Option ℕ
  pub armed : List Timer
  pub next_handle : ℕ
  pub ticks : ℕ
  pub force_full : Bool
  pub in_flight : Bool
  pub poll_again : Bool
  pub session_fresh : Bool
  pub passes : List Pass

-- A `refreshDetail` that waits: the torrent, and the fields it asked for (`none` for all of them).
pub record DetailRequest : Type 0 where
  pub id : ℕ
  pub all : Bool
  pub tab : InspectorTab

-- A `refreshFreeSpace` that waits: the copy of the map, and the roots it asks for.
pub record SpaceRequest : Type 0 where
  pub base : List (Text × FreeSpace)
  pub roots : List Text

-- A `removeSequence` that waits for the answer to one `torrent-remove`.
pub record Run : Type 0 where
  pub token : ℕ
  pub current : ℕ
  pub rest : List ℕ

-- The store, its module variables, what is suspended, and what it has sent: `sent` lists the
-- `torrent-remove` calls (token and id), newest first, and `query` is the address bar's query.
pub record World : Type 0 where
  pub snap : Snapshot
  pub poll : Poll
  pub view_order : List ℕ
  pub removal_token : ℕ
  pub toast_timer : Bool
  pub query : List (Text × Text)
  pub stored_dismissed : List Text
  pub details : List DetailRequest
  pub spaces : List SpaceRequest
  pub runs : List Run
  pub sent : List (ℕ × ℕ)
