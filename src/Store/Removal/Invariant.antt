-- ===== src/Store/Removal/Invariant.antt =====
-- Every event of the store keeps the invariant of the removal's tally.
use transmission_ui.Prelude.{
  ℕ, ◌+◌, ◌≤◌, refl, inl, inr, true, List, [], ◌∷◌, Option, none, some, arith, ==_refl, Bool-cases,
  All,
}
use transmission_ui.Prelude.Keyed.{nat_eq, Nodup}
use transmission_ui.Store.Removal.Batch.{batch_of_lem}
use transmission_ui.Store.{World, Removing, Run}
use transmission_ui.Store.Url.{Query}
use transmission_ui.Store.Initial.{Stored, initial}
use transmission_ui.Store.Steps.{
  find_run, resumed, fired, Step, polling_begins, poll_answers, poll_rejects, timer_fires,
  tab_shown, refreshes, session_read, detail_read, space_read, call_ends, shows_toast, hides_toast,
  focuses, opens_tab, shows_list, selects_all, dismisses, sets_view, removes, removal_answered,
  stops, dismisses_removal, set_view, Reach, here, next,
}
use transmission_ui.Store.Frames.{
  RemovalPart, removal_part, refresh_now-removal_part, poll_once-removal_part,
  poll_succeeds-removal_part, poll_fails-removal_part, detail_arrives-removing,
  run_ends-removal_part, focus-removal_part, set_inspector_tab-removal_part,
}
use transmission_ui.Store.Polling.{session_arrives, space_arrives, polling_starts}
use transmission_ui.Store.Actions.{
  toast, toast_expires, set_view_order, select_all_visible, dismiss_notice,
}
use transmission_ui.Store.Removal.{
  start_removal, remove_sequence, batch_of, shown_order, is_busy, stop_tally, stop_removal,
  dismiss_removal,
}
use transmission_ui.Store.Removal.Tally.{
  requests, Progress, Fits, IsSound, requests-nil, find_run-none,
}
use transmission_ui.Store.Removal.Rounds.{next_removal-IsSound}
use transmission_ui.Store.Removal.Answers.{removal_replies-IsSound}

weaken-runs :
    (n : ℕ) (rs : List Run) → All (λ r. Run.token r ≤ n) rs → All (λ r. Run.token r ≤ n + 1) rs
weaken-runs n [] h = tt
weaken-runs n (r ∷ rs) h = (omega (arith, h.0), weaken-runs n rs h.1)

weaken-sent : (n : ℕ) (s : List (ℕ × ℕ)) → All (λ x. x.0 ≤ n) s → All (λ x. x.0 ≤ n + 1) s
weaken-sent n [] h = tt
weaken-sent n (x ∷ s) h = (omega (arith, h.0), weaken-sent n s h.1)

start_removal-IsSound :
    (batch : List ℕ) (w : World)
    → Nodup batch
    → IsSound (removal_part w)
    → IsSound (removal_part (start_removal batch w))
unfolding start_removal
start_removal-IsSound batch w d s =
    let token = w.removal_token + 1 in
    let nothing = requests-nil token w.removal_token w.sent s.sent_bound (omega arith) in
    next_removal-IsSound token batch _ (record {
      bound = omega arith;
      absent = find_run-none token w.removal_token w.runs s.runs_bound (omega arith);
      runs_bound = weaken-runs w.removal_token w.runs s.runs_bound;
      sent_bound = weaken-sent w.removal_token w.sent s.sent_bound;
      fits = (
        omega arith,
        record { answered = omega arith; failures = omega arith; distinct = d },
        rw (==_refl token, nothing) (omega arith, refl),
      );
    })

remove_sequence-IsSound :
    (ids : List ℕ) (w : World)
    → Nodup (shown_order w)
    → IsSound (removal_part w)
    → IsSound (removal_part (remove_sequence ids w))
unfolding remove_sequence toast
remove_sequence-IsSound [] w d s = s
remove_sequence-IsSound (i ∷ ids) w d s = elim (Bool-cases (is_busy w.snap.removing)) [
  | inl busy ↦ rw (busy, remove_sequence) s
  | inr free ↦
      rw (free, remove_sequence)
        (start_removal-IsSound (batch_of (shown_order w) (i ∷ ids)) w
          (batch_of_lem (shown_order w) (i ∷ ids) d).0 s)
]

stopped-Progress :
    (r : Removing) (o : Option Run) (asked : List ℕ)
    → Progress r o asked
    → Progress (record r { stopped = true }) o asked
stopped-Progress r none asked (n, (rest, a, over)) = (n, (rest, a, inl refl))
stopped-Progress r (some run) asked h = h

stopped-Fits :
    (o : Option Removing) (p : RemovalPart) (x : Option Removing)
    → Fits o p
    → Fits (stop_tally o) (record p { removing = x })
stopped-Fits none p x f = tt
stopped-Fits (some r) p x f = (
  f.0,
  record { answered = f.1.answered; failures = f.1.failures; distinct = f.1.distinct },
  stopped-Progress r (find_run r.token p.runs) (requests r.token p.sent) (f.2),
)

stop_removal-IsSound :
    (w : World) → IsSound (removal_part w) → IsSound (removal_part (stop_removal w))
unfolding stop_removal
stop_removal-IsSound w s = record {
  runs_bound = s.runs_bound;
  sent_bound = s.sent_bound;
  fits = stopped-Fits w.snap.removing (removal_part w) (stop_tally w.snap.removing) s.fits;
}

dismiss_removal-IsSound :
    (w : World) → IsSound (removal_part w) → IsSound (removal_part (dismiss_removal w))
unfolding dismiss_removal
dismiss_removal-IsSound w s = record {
  runs_bound = s.runs_bound;
  sent_bound = s.sent_bound;
  fits = tt;
}

-- A removal is asked for while the list shows no torrent twice.
abbrev pub StartsTidy : {w v : World} → Step w v → Type 0
StartsTidy (removes w ids) = Nodup (shown_order w)
StartsTidy _ = Unit {0}

abbrev pub IsTidy : {s w : World} → Reach s w → Type 0
IsTidy here = Unit {0}
IsTidy (next r st) = IsTidy r × StartsTidy st

Step-IsSound :
    {w v : World} (st : Step w v)
    → StartsTidy st
    → IsSound (removal_part w)
    → IsSound (removal_part v)
unfolding polling_starts session_arrives space_arrives toast toast_expires set_view_order
    select_all_visible dismiss_notice set_view
Step-IsSound (polling_begins w) d s = rw (poll_once-removal_part _) s
Step-IsSound (poll_answers w i p a hidden e) d s =
    rw (poll_succeeds-removal_part p a hidden (resumed i w)) s
Step-IsSound (poll_rejects w i p msg hidden e) d s =
    rw (poll_fails-removal_part p msg hidden (resumed i w)) s
Step-IsSound (timer_fires w i t e) d s = rw (poll_once-removal_part (fired i w)) s
Step-IsSound (tab_shown w) d s = rw (poll_once-removal_part w) s
Step-IsSound (refreshes w) d s = rw (refresh_now-removal_part w) s
Step-IsSound (session_read w x) d s = s
Step-IsSound (detail_read w r answer e) d s = rw (detail_arrives-removing r answer w.snap) s
Step-IsSound (space_read w r answer) d s = s
Step-IsSound (call_ends w label r) d s = rw (run_ends-removal_part label r w) s
Step-IsSound (shows_toast w msg) d s = s
Step-IsSound (hides_toast w) d s = s
Step-IsSound (focuses w id) d s = rw (focus-removal_part id w) s
Step-IsSound (opens_tab w tab) d s = rw (set_inspector_tab-removal_part tab w) s
Step-IsSound (shows_list w ids) d s = s
Step-IsSound (selects_all w) d s = s
Step-IsSound (dismisses w writable key) d s = s
Step-IsSound (sets_view w v) d s = s
Step-IsSound (removes w ids) d s = remove_sequence-IsSound ids w d s
Step-IsSound (removal_answered w run r found) d s = removal_replies-IsSound run r w found s
Step-IsSound (stops w) d s = stop_removal-IsSound w s
Step-IsSound (dismisses_removal w) d s = dismiss_removal-IsSound w s

Reach-from-IsSound :
    {s w : World} (r : Reach s w) → IsTidy r → IsSound (removal_part s) → IsSound (removal_part w)
Reach-from-IsSound here d h = h
Reach-from-IsSound (next r st) (d, tidy) h = Step-IsSound st tidy (Reach-from-IsSound r d h)

-- In every store that events lead to from the first one, where removals are asked for while the list shows no
-- torrent twice, the removal on screen has a batch of distinct torrents, of which those asked for are the first
-- ones in order, and has counted at most one failure for each answer. While a request of its run is out, that
-- request is the tally's active torrent and every earlier one has its answer counted. With no request out every
-- request has its answer counted, and the run was stopped or has asked for the whole batch.
pub Reach-IsSound :
    (q : Query) (st : Stored) (w : World) (r : Reach (initial q st) w)
    → IsTidy r
    → IsSound (removal_part w)
unfolding initial
Reach-IsSound q st w r d =
    Reach-from-IsSound r d (record { runs_bound = tt; sent_bound = tt; fits = tt })
