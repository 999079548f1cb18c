-- ===== src/Store/Steps.antt =====
-- What can happen to the store of ui/src/state/store.ts, one event at a time: answers of the daemon
-- in any order, timers, and the user. Each event runs to the next `await`, as the browser runs it.
use transmission_ui.Prelude.{
  ℕ, zero, suc, get_elem?, ◌==◌, ◌≡◌, Bool, List, [], ◌∷◌, Option, none, some, Text, if◌then◌else◌,
}
use transmission_ui.Types.{Session, FreeSpace}
use transmission_ui.Store.{
  Snapshot, World, Pass, Timer, Extra, InspectorTab, DetailRequest, SpaceRequest, Run,
}
use transmission_ui.Store.Detail.{detail_arrives}
use transmission_ui.Store.Polling.{
  PollAnswer, poll_once, poll_succeeds, poll_fails, space_arrives, session_arrives, polling_starts,
  refresh_now,
}
use transmission_ui.Store.Actions.{
  toast, toast_expires, focus, set_inspector_tab, Reply, run_ends, set_view_order,
  select_all_visible, dismiss_notice,
}
use transmission_ui.Store.Removal.{remove_sequence, removal_replies, stop_removal, dismiss_removal}

-- The run of a token that waits, if there is one.
abbrev pub find_run : ℕ → List Run → Option Run
find_run token [] = none
find_run token (r ∷ rs) = if r.token == token then some r else find_run token rs

-- The fields that only the components set: the view, the selection and the dialogs.
unfoldable pub set_view : Snapshot → Snapshot → Snapshot
set_view v s = record s {
  filter = v.filter;
  adv = v.adv;
  search = v.search;
  sort = v.sort;
  sort_dir = v.sort_dir;
  selected = v.selected;
  dialog = v.dialog;
  density = v.density;
  sidebar_w = v.sidebar_w;
}

-- A `torrent_get` for one id answers with that torrent, or with none.
abbrev pub Answers : ℕ → Option Extra → Type 0
Answers id none = Unit {0}
Answers id (some d) = d.id ≡ id

abbrev pub with_snap : World → Snapshot → World
with_snap w s = record w { snap = s }

abbrev pub remove_at {ℓ} : {A : Type ℓ} → ℕ → List A → List A
remove_at i [] = []
remove_at zero (x ∷ xs) = xs
remove_at (suc i) (x ∷ xs) = x ∷ remove_at i xs

-- The pass with a number goes on: it does not wait any more.
abbrev pub resumed : ℕ → World → World
resumed i w = record w { poll = record (w.poll) { passes = remove_at i w.poll.passes } }

-- The timer with a number has run out.
abbrev pub fired : ℕ → World → World
fired i w = record w { poll = record (w.poll) { armed = remove_at i w.poll.armed } }

-- `startPolling` guards against a second start; without the guard there are more runs, not fewer.
pub data Step : World → World → Type 0 where
  polling_begins : (w : World) → Step w (polling_starts w)
  poll_answers :
      (w : World) (i : ℕ) (p : Pass) (a : PollAnswer) (hidden : Bool)
      → get_elem? w.poll.passes i ≡ some p
      → Step w (poll_succeeds p a hidden (resumed i w))
  poll_rejects :
      (w : World) (i : ℕ) (p : Pass) (msg : Text) (hidden : Bool)
      → get_elem? w.poll.passes i ≡ some p
      → Step w (poll_fails p msg hidden (resumed i w))
  timer_fires :
      (w : World) (i : ℕ) (t : Timer)
      → get_elem? w.poll.armed i ≡ some t
      → Step w (poll_once (fired i w))
  tab_shown : (w : World) → Step w (poll_once w)
  refreshes : (w : World) → Step w (refresh_now w)
  session_read : (w : World) (x : Session) → Step w (with_snap w (session_arrives x w.snap))
  detail_read :
      (w : World) (r : DetailRequest) (d : Option Extra)
      → Answers r.id d
      → Step w (with_snap w (detail_arrives r d w.snap))
  space_read :
      (w : World) (r : SpaceRequest) (answer : Text → Option FreeSpace)
      → Step w (with_snap w (space_arrives r answer w.snap))
  call_ends : (w : World) (label : Text) (r : Reply) → Step w (run_ends label r w)
  shows_toast : (w : World) (msg : Text) → Step w (toast msg w)
  hides_toast : (w : World) → Step w (toast_expires w)
  focuses : (w : World) (id : Option ℕ) → Step w (focus id w)
  opens_tab : (w : World) (tab : InspectorTab) → Step w (set_inspector_tab tab w)
  shows_list : (w : World) (ids : List ℕ) → Step w (set_view_order ids w)
  selects_all : (w : World) → Step w (select_all_visible w)
  dismisses : (w : World) (writable : Bool) (key : Text) → Step w (dismiss_notice writable key w)
  sets_view : (w : World) (v : Snapshot) → Step w (with_snap w (set_view v w.snap))
  removes : (w : World) (ids : List ℕ) → Step w (remove_sequence ids w)
  removal_answered :
      (w : World) (run : Run) (r : Reply)
      → find_run run.token w.runs ≡ some run
      → Step w (removal_replies run r w)
  stops : (w : World) → Step w (stop_removal w)
  dismisses_removal : (w : World) → Step w (dismiss_removal w)

pub data Reach (s : World) : World → Type 0 where
  here : Reach s s
  next : {t u : World} → Reach s t → Step t u → Reach s u
