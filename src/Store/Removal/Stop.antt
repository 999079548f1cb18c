-- ===== src/Store/Removal/Stop.antt =====
-- A removal that was stopped or dismissed sends nothing more, and its late answers count nowhere.
use transmission_ui.Prelude.{
  ℕ, ◌+◌, ◌≤◌, ◌≡◌, refl, sym, ◌∙◌, ◌≢◌, inl, inr, true, List, [], ◌∷◌, Option, none, some, arith,
  ◌==◌, Bool-cases, Option-cases,
}
use transmission_ui.Store.{World, Removing, Run}
use transmission_ui.Store.Steps.{
  resumed, fired, Step, polling_begins, poll_answers, poll_rejects, timer_fires, tab_shown,
  refreshes, session_read, detail_read, space_read, call_ends, shows_toast, hides_toast, focuses,
  opens_tab, shows_list, selects_all, dismisses, sets_view, removes, removal_answered, stops,
  dismisses_removal, set_view, Reach, here, next,
}
use transmission_ui.Store.Frames.{
  RemovalPart, removal_part, refresh_now-removal_part, poll_once-removal_part,
  poll_succeeds-removal_part, poll_fails-removal_part, detail_arrives-removing,
  run_ends-removal_part, focus-removal_part, set_inspector_tab-removal_part,
}
use transmission_ui.Store.Polling.{refresh_now, session_arrives, space_arrives, polling_starts}
use transmission_ui.Store.Actions.{
  toast, toast_expires, Reply, done, error, set_view_order, select_all_visible, dismiss_notice,
}
use transmission_ui.Store.Removal.{
  mine, patch_tally, count_reply, without, removal_replies, start_removal, next_removal,
  finish_removal, send_remove, clear_tally, remove_sequence, batch_of, shown_order, is_busy,
  stop_tally, stop_removal, dismiss_removal,
}
use transmission_ui.Store.Removal.Tally.{requests}
use transmission_ui.Store.Removal.Rounds.{clear_tally-part, mine-some, send_remove-part}
use transmission_ui.Store.Removal.Answers.{settle_reply-part}

-- The token was given out, and no tally that still runs has it.
abbrev pub NotRunning : ℕ → Option Removing → Type 0
NotRunning k none = Unit {0}
NotRunning k (some r) = (r.token ≡ k) → r.stopped ≡ true

pub record IsHalted (k : ℕ) (asked : List ℕ) (p : RemovalPart) : Type 0 where
  pub given : k ≤ p.removal_token
  pub idle : NotRunning k p.removing
  pub asked_same : requests k p.sent ≡ asked

count_reply-same :
    (id : ℕ) (reply : Reply) (r : Removing)
    → ((count_reply id reply r).token ≡ r.token) × ((count_reply id reply r).stopped ≡ r.stopped)
count_reply-same id done r = (refl, refl)
count_reply-same id (error msg) r = (refl, refl)

module _ (k : ℕ) (asked : List ℕ) where
  IsHalted-none :
      (p : RemovalPart) → IsHalted k asked p → IsHalted k asked (record p { removing = none })
  IsHalted-none p h = record { given = h.given; idle = tt; asked_same = h.asked_same }

  clear_tally-IsHalted :
      (token : ℕ) (r : Removing) (w : World)
      → IsHalted k asked (removal_part w)
      → IsHalted k asked (removal_part (clear_tally token r w))
  clear_tally-IsHalted token r w h = elim (clear_tally-part token r w) [
    | inl same ↦ rw same h
    | inr cleared ↦ rw cleared (IsHalted-none _ h)
  ]

  finish_removal-IsHalted :
      (token : ℕ) (w : World)
      → IsHalted k asked (removal_part w)
      → IsHalted k asked (removal_part (finish_removal token w))
  unfolding finish_removal
  finish_removal-IsHalted token w h =
      let h' : IsHalted k asked (removal_part (refresh_now w)) =
        rw (refresh_now-removal_part w) h in
      elim (Option-cases (refresh_now w).snap.removing) [
        | inl gone ↦ rw (gone, finish_removal) h'
        | inr (r, shown) ↦
            rw (shown, finish_removal) (clear_tally-IsHalted token r (refresh_now w) h')
      ]

  patch-NotRunning :
      (token : ℕ) (f : Removing → Removing) (o : Option Removing)
      → ((r : Removing) → ((f r).token ≡ r.token) × ((f r).stopped ≡ r.stopped))
      → NotRunning k o
      → NotRunning k (patch_tally token f o)
  patch-NotRunning token f none keep h = tt
  patch-NotRunning token f (some r) keep h = elim (Bool-cases (r.token == token)) [
    | inl same ↦ rw same (λ e. (keep r).1 ∙ h (sym (keep r).0 ∙ e))
    | inr other ↦ rw other h
  ]

  send_remove-IsHalted :
      (token id : ℕ) (rest : List ℕ) (w : World)
      → token ≢ k
      → IsHalted k asked (removal_part w)
      → IsHalted k asked (removal_part (send_remove token id rest w))
  send_remove-IsHalted token id rest w ne h = rw (send_remove-part token id rest w) (record {
    given = h.given;
    idle = patch-NotRunning token _ w.snap.removing (λ r. (refl, refl)) h.idle;
    asked_same = ground (arith, h.asked_same, ne);
  })

  next_removal-IsHalted :
      (token : ℕ) (rest : List ℕ) (w : World)
      → IsHalted k asked (removal_part w)
      → IsHalted k asked (removal_part (next_removal token rest w))
  unfolding next_removal
  next_removal-IsHalted token [] w h = finish_removal-IsHalted token w h
  next_removal-IsHalted token (id ∷ rest) w h = elim (Option-cases (mine token w.snap.removing)) [
    | inl lost ↦ rw (lost, next_removal) (finish_removal-IsHalted token w h)
    | inr (r, own) ↦ elim (Bool-cases r.stopped) [
      | inl stop ↦ rw (own, next_removal, stop) (finish_removal-IsHalted token w h)
      | inr go ↦
          let (shown, same) = mine-some token w.snap.removing r own in
          let idle : NotRunning k (some r) = rw shown at (h.idle) in
          let ne : token ≢ k = λ e. absurd (cc (go, idle (same ∙ e))) in
          rw (own, next_removal, go) (send_remove-IsHalted token id rest w ne h)
    ]
  ]

  removal_replies-IsHalted :
      (run : Run) (reply : Reply) (w : World)
      → IsHalted k asked (removal_part w)
      → IsHalted k asked (removal_part (removal_replies run reply w))
  unfolding removal_replies
  removal_replies-IsHalted run reply w h = next_removal-IsHalted run.token run.rest _ (
      rw
        (settle_reply-part run.token run.current reply
          (record w { runs = without run.token w.runs }))
        (record {
          given = h.given;
          idle =
              patch-NotRunning run.token _ w.snap.removing (count_reply-same run.current reply)
                h.idle;
          asked_same = h.asked_same;
        }))

  start_removal-IsHalted :
      (batch : List ℕ) (w : World)
      → IsHalted k asked (removal_part w)
      → IsHalted k asked (removal_part (start_removal batch w))
  unfolding start_removal
  start_removal-IsHalted batch w h = next_removal-IsHalted (w.removal_token + 1) batch _ (record {
    given = omega (arith, h.given);
    idle = λ e. absurd (omega (arith, e, h.given));
    asked_same = h.asked_same;
  })

  remove_sequence-IsHalted :
      (ids : List ℕ) (w : World)
      → IsHalted k asked (removal_part w)
      → IsHalted k asked (removal_part (remove_sequence ids w))
  unfolding remove_sequence toast
  remove_sequence-IsHalted [] w h = h
  remove_sequence-IsHalted (i ∷ ids) w h = elim (Bool-cases (is_busy w.snap.removing)) [
    | inl busy ↦ rw (busy, remove_sequence) h
    | inr free ↦
        rw (free, remove_sequence) (start_removal-IsHalted (batch_of (shown_order w) (i ∷ ids)) w h)
  ]

  stop_tally-NotRunning : (o : Option Removing) → NotRunning k o → NotRunning k (stop_tally o)
  stop_tally-NotRunning none h = tt
  stop_tally-NotRunning (some r) h = λ e. refl

  Step-IsHalted :
      {w v : World}
      → Step w v
      → IsHalted k asked (removal_part w)
      → IsHalted k asked (removal_part v)
  unfolding polling_starts session_arrives space_arrives toast toast_expires set_view_order
      select_all_visible dismiss_notice set_view stop_removal dismiss_removal
  Step-IsHalted (polling_begins w) h = rw (poll_once-removal_part _) h
  Step-IsHalted (poll_answers w i p a hidden e) h =
      rw (poll_succeeds-removal_part p a hidden (resumed i w)) h
  Step-IsHalted (poll_rejects w i p msg hidden e) h =
      rw (poll_fails-removal_part p msg hidden (resumed i w)) h
  Step-IsHalted (timer_fires w i t e) h = rw (poll_once-removal_part (fired i w)) h
  Step-IsHalted (tab_shown w) h = rw (poll_once-removal_part w) h
  Step-IsHalted (refreshes w) h = rw (refresh_now-removal_part w) h
  Step-IsHalted (session_read w x) h = h
  Step-IsHalted (detail_read w r d e) h = rw (detail_arrives-removing r d w.snap) h
  Step-IsHalted (space_read w r answer) h = h
  Step-IsHalted (call_ends w label r) h = rw (run_ends-removal_part label r w) h
  Step-IsHalted (shows_toast w msg) h = h
  Step-IsHalted (hides_toast w) h = h
  Step-IsHalted (focuses w id) h = rw (focus-removal_part id w) h
  Step-IsHalted (opens_tab w tab) h = rw (set_inspector_tab-removal_part tab w) h
  Step-IsHalted (shows_list w ids) h = h
  Step-IsHalted (selects_all w) h = h
  Step-IsHalted (dismisses w writable key) h = h
  Step-IsHalted (sets_view w v) h = h
  Step-IsHalted (removes w ids) h = remove_sequence-IsHalted ids w h
  Step-IsHalted (removal_answered w run r found) h = removal_replies-IsHalted run r w h
  Step-IsHalted (stops w) h = record {
    given = h.given;
    idle = stop_tally-NotRunning w.snap.removing h.idle;
    asked_same = h.asked_same;
  }
  Step-IsHalted (dismisses_removal w) h = IsHalted-none _ h

  Reach-IsHalted :
      {w v : World}
      → Reach w v
      → IsHalted k asked (removal_part w)
      → IsHalted k asked (removal_part v)
  Reach-IsHalted here h = h
  Reach-IsHalted (next r st) h = Step-IsHalted st (Reach-IsHalted r h)

stop_removal-given :
    (k : ℕ) (w : World)
    → k ≤ w.removal_token
    → (r : Removing) × (w.snap.removing ≡ some r) × (r.token ≡ k)
    → IsHalted k (requests k w.sent) (removal_part (stop_removal w))
unfolding stop_removal
stop_removal-given k w given (r, shown, same) = record {
  given = given;
  idle = rw shown (λ e. refl);
  asked_same = refl;
}

-- Stop is final: once the removal on screen was stopped, no event that follows, in any order, makes
-- its run ask the daemon for another torrent.
pub stop_removal-final :
    (k : ℕ) (w v : World) (r : Removing)
    → k ≤ w.removal_token
    → w.snap.removing ≡ some r
    → r.token ≡ k
    → Reach (stop_removal w) v
    → requests k v.sent ≡ requests k w.sent
stop_removal-final k w v r given shown same later =
    (Reach-IsHalted k (requests k w.sent) later
      (stop_removal-given k w given (r, shown, same))).asked_same
