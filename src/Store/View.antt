-- ===== src/Store/View.antt =====
-- What the components can rely on in every snapshot of the store: one table of rows, an inspector payload of
-- the focused torrent, and a short history.
use transmission_ui.Prelude.{
  Bool-cases, Option-cases, is_some, is_id, codes, text_eq, ℕ, refl, inl, inr, false, List, [], ◌∷◌,
  arith,
}
use transmission_ui.Prelude.Keyed.{nat_eq, text_eq_inst}
use transmission_ui.Store.{Removing, Run, World}
use transmission_ui.Store.Url.{Query, sync_url}
use transmission_ui.Store.Initial.{Stored, initial}
use transmission_ui.Store.Merge.Rows.{erase-IsTable}
use transmission_ui.Store.Polling.{
  space_arrives, poll_answered, poll_succeeds, poll_caught, poll_fails, session_arrives,
  polling_starts, refresh_now,
}
use transmission_ui.Store.Actions.{
  toast, toast_expires, Reply, done, error, set_view_order, select_all_visible, dismiss_notice,
}
use transmission_ui.Store.Removal.{
  mine, clear_tally, finish_removal, send_remove, next_removal, start_removal, is_busy,
  remove_sequence, drop_row, settle_reply, removal_replies, stop_removal, dismiss_removal,
}
use transmission_ui.Store.Steps.{
  set_view, resumed, fired, Step, polling_begins, poll_answers, poll_rejects, timer_fires,
  tab_shown, refreshes, session_read, detail_read, space_read, call_ends, shows_toast, hides_toast,
  focuses, opens_tab, shows_list, selects_all, dismisses, sets_view, removes, removal_answered,
  stops, dismisses_removal, Reach, here, next,
}
use transmission_ui.Store.Kept.{
  IsShown, same_rows, poll_once-snap, refresh_now-snap, settle-snap, poll_answered-IsShown,
  poll_caught-IsShown, detail_arrives-IsShown, run_ends-IsShown, focus-IsShown,
  set_inspector_tab-IsShown,
}

clear_tally-IsShown :
    (token : ℕ) (r : Removing) (w : World) → IsShown w.snap → IsShown (clear_tally token r w).snap
unfolding clear_tally toast
clear_tally-IsShown token r w h =
    same_rows w.snap _ (ground arith) (ground arith) (ground arith) (ground arith) (ground arith) h

finish_removal-IsShown :
    (token : ℕ) (w : World) → IsShown w.snap → IsShown (finish_removal token w).snap
unfolding finish_removal
finish_removal-IsShown token w h =
    let h' : IsShown (refresh_now w).snap = rw (refresh_now-snap w) h in
    elim (Option-cases (refresh_now w).snap.removing) [
      | inl gone ↦ rw (gone, finish_removal) h'
      | inr (r, shown) ↦ rw (shown, finish_removal) (clear_tally-IsShown token r (refresh_now w) h')
    ]

next_removal-IsShown :
    (token : ℕ) (rest : List ℕ) (w : World)
    → IsShown w.snap
    → IsShown (next_removal token rest w).snap
unfolding next_removal send_remove
next_removal-IsShown token [] w h = finish_removal-IsShown token w h
next_removal-IsShown token (id ∷ rest) w h = elim (Option-cases (mine token w.snap.removing)) [
  | inl lost ↦ rw (lost, next_removal) (finish_removal-IsShown token w h)
  | inr (r, own) ↦ elim (Bool-cases r.stopped) [
    | inl stop ↦ rw (own, next_removal, stop) (finish_removal-IsShown token w h)
    | inr go ↦ rw (own, next_removal, go) (same_rows w.snap _ refl refl refl refl refl h)
  ]
]

drop_row-IsShown : (id : ℕ) (w : World) → IsShown w.snap → IsShown (drop_row id w).snap
unfolding drop_row sync_url
drop_row-IsShown id w h =
    let rows =
      erase-IsTable id w.snap.by_id
        (record { array = refl; distinct = h.rows.distinct; own = h.rows.own }) in
    elim (Bool-cases (is_id w.snap.focus_id id)) [
      | inl open_ ↦ rw (open_, drop_row) (record { rows = rows; detail = tt; history = h.history })
      | inr other ↦
          rw (other, drop_row) (record { rows = rows; detail = h.detail; history = h.history })
    ]

settle_reply-IsShown :
    (token id : ℕ) (reply : Reply) (w : World)
    → IsShown w.snap
    → IsShown (settle_reply token id reply w).snap
unfolding settle_reply
settle_reply-IsShown token id done w h =
    same_rows (drop_row id w).snap _ refl refl refl refl refl (drop_row-IsShown id w h)
settle_reply-IsShown token id (error msg) w h = same_rows w.snap _ refl refl refl refl refl h

removal_replies-IsShown :
    (run : Run) (reply : Reply) (w : World)
    → IsShown w.snap
    → IsShown (removal_replies run reply w).snap
unfolding removal_replies
removal_replies-IsShown run reply w h =
    next_removal-IsShown run.token run.rest _ (settle_reply-IsShown run.token run.current reply _ h)

remove_sequence-IsShown :
    (ids : List ℕ) (w : World) → IsShown w.snap → IsShown (remove_sequence ids w).snap
unfolding remove_sequence start_removal toast
remove_sequence-IsShown [] w h = h
remove_sequence-IsShown (i ∷ ids) w h = elim (Bool-cases (is_busy w.snap.removing)) [
  | inl busy ↦ rw (busy, remove_sequence) (same_rows w.snap _ refl refl refl refl refl h)
  | inr free ↦
      rw (free, remove_sequence)
        (next_removal-IsShown _ _ _ (same_rows w.snap _ refl refl refl refl refl h))
]

Step-IsShown : {w v : World} → Step w v → IsShown w.snap → IsShown v.snap
unfolding polling_starts session_arrives space_arrives toast toast_expires set_view_order
    select_all_visible dismiss_notice set_view stop_removal dismiss_removal poll_succeeds poll_fails
Step-IsShown (polling_begins w) h =
    rw
      (poll_once-snap
        (record w { poll = record (w.poll) { session_fresh = is_some w.snap.session } }))
      h
Step-IsShown (poll_answers w i p a hidden e) h =
    rw (settle-snap false hidden (poll_answered p a (resumed i w)))
      (poll_answered-IsShown p a (resumed i w) h)
Step-IsShown (poll_rejects w i p msg hidden e) h =
    rw (settle-snap (text_eq msg (codes "unauthorized")) hidden (poll_caught p msg (resumed i w)))
      (poll_caught-IsShown p msg w h)
Step-IsShown (timer_fires w i t e) h = rw (poll_once-snap (fired i w)) h
Step-IsShown (tab_shown w) h = rw (poll_once-snap w) h
Step-IsShown (refreshes w) h = rw (refresh_now-snap w) h
Step-IsShown (session_read w x) h = same_rows w.snap _ refl refl refl refl refl h
Step-IsShown (detail_read w r d e) h = detail_arrives-IsShown r d w.snap e h
Step-IsShown (space_read w r answer) h = same_rows w.snap _ refl refl refl refl refl h
Step-IsShown (call_ends w label r) h = run_ends-IsShown label r w h
Step-IsShown (shows_toast w msg) h = same_rows w.snap _ refl refl refl refl refl h
Step-IsShown (hides_toast w) h = same_rows w.snap _ refl refl refl refl refl h
Step-IsShown (focuses w id) h = focus-IsShown id w h
Step-IsShown (opens_tab w tab) h = set_inspector_tab-IsShown tab w h
Step-IsShown (shows_list w ids) h = h
Step-IsShown (selects_all w) h = same_rows w.snap _ refl refl refl refl refl h
Step-IsShown (dismisses w writable key) h = same_rows w.snap _ refl refl refl refl refl h
Step-IsShown (sets_view w v) h = same_rows w.snap _ refl refl refl refl refl h
Step-IsShown (removes w ids) h = remove_sequence-IsShown ids w h
Step-IsShown (removal_answered w run r found) h = removal_replies-IsShown run r w h
Step-IsShown (stops w) h = same_rows w.snap _ refl refl refl refl refl h
Step-IsShown (dismisses_removal w) h = same_rows w.snap _ refl refl refl refl refl h

Reach-from-IsShown : {s w : World} → Reach s w → IsShown s.snap → IsShown w.snap
Reach-from-IsShown here h = h
Reach-from-IsShown (next r st) h = Step-IsShown st (Reach-from-IsShown r h)

-- In every store that events lead to from the first one the array of rows is the map's, each id stands
-- once and under itself, the inspector's payload is the focused torrent's, and the history has at most
-- 60 entries.
pub Reach-IsShown : (q : Query) (st : Stored) (w : World) → Reach (initial q st) w → IsShown w.snap
unfolding initial
Reach-IsShown q st w r = Reach-from-IsShown r (record {
  rows = record { array = refl; distinct = tt; own = tt };
  detail = tt;
  history = omega arith;
})
