-- ===== src/Store/Polling/Effects.antt =====
-- What each operation of the store does to the polling variables.
use transmission_ui.Prelude.{
  ℕ, ◌+◌, ◌≡◌, refl, subst, ap, ◌∙◌, ◌⊎◌, inl, inr, Bool, true, false, ◌||◌, if◌then◌else◌, List,
  [], ◌∷◌, Option, Text, codes, text_eq, arith, Bool-cases, Option-cases,
}
use transmission_ui.Store.{World, Poll, Pass, InspectorTab, Removing, Run}
use transmission_ui.Store.Url.{sync_url}
use transmission_ui.Store.Detail.{refresh_detail}
use transmission_ui.Store.Polling.{
  begin_pass, poll_once, settle, list_ms, hidden_ms, arm, refresh_free_space, drop_focus,
  poll_answered, poll_succeeds, poll_caught, poll_fails, refresh_now, PollAnswer,
}
use transmission_ui.Store.Actions.{toast, focus, set_inspector_tab, Reply, done, error, run_ends}
use transmission_ui.Store.Removal.{
  mine, settle_reply, drop_row, without, removal_replies, start_removal, next_removal,
  finish_removal, send_remove, clear_tally, remove_sequence, is_busy,
}

-- `pollOnce` on the polling variables.
abbrev pub once : Poll → Poll
once p = if p.in_flight then record p { poll_again = true } else begin_pass p

abbrev pub forced_once : Poll → Poll
forced_once p = once (record p { force_full = true })

pub refresh_detail-poll : (full : Bool) (w : World) → (refresh_detail full w).poll ≡ w.poll
unfolding refresh_detail
refresh_detail-poll full w = ground arith

pub poll_once-poll : (w : World) → (poll_once w).poll ≡ once w.poll
unfolding poll_once
poll_once-poll w = elim (Bool-cases w.poll.in_flight) [
  | inl busy ↦ rw (busy, poll_once)
  | inr free ↦ rw (free, poll_once) (refresh_detail-poll _ _)
]

pub refresh_now-poll : (w : World) → (refresh_now w).poll ≡ forced_once w.poll
unfolding refresh_now
refresh_now-poll w = poll_once-poll _

-- The `finally` block on the polling variables.
abbrev pub settled : Bool → Bool → Poll → Poll
settled unauth hidden q =
    let p = record q { ticks = q.ticks + 1; in_flight = false } in
    if p.poll_again
    then once (record p { poll_again = false })
    else if unauth
    then p
    else arm (if hidden then hidden_ms else list_ms) p

pub settle-poll :
    (unauth hidden : Bool) (w : World)
    → (settle unauth hidden w).poll ≡ settled unauth hidden w.poll
unfolding settle
settle-poll unauth hidden w = elim (Bool-cases w.poll.poll_again) [
  | inl again ↦ rw (again, settle) (poll_once-poll _)
  | inr idle ↦ rw (idle, settle) (ground arith)
]

drop_focus-poll : (w : World) → (drop_focus w).poll ≡ w.poll
unfolding drop_focus sync_url
drop_focus-poll w = ground arith

maybe_space-poll : (b : Bool) (w : World) → (if b then refresh_free_space w else w).poll ≡ w.poll
unfolding refresh_free_space
maybe_space-poll true w = refl
maybe_space-poll false w = refl

pub poll_succeeds-poll :
    (p : Pass) (a : PollAnswer) (hidden : Bool) (w : World)
    → (poll_succeeds p a hidden w).poll
      ≡ settled false hidden (record (w.poll) { session_fresh = false })
unfolding poll_succeeds poll_answered
poll_succeeds-poll p a hidden w =
    settle-poll false hidden _
    ∙ ap (settled false hidden) (maybe_space-poll _ _ ∙ drop_focus-poll _)

pub poll_fails-poll :
    (p : Pass) (msg : Text) (hidden : Bool) (w : World)
    → (poll_fails p msg hidden w).poll
      ≡ settled
          (text_eq msg (codes "unauthorized"))
          hidden
          (record (w.poll) { force_full = p.forced || w.poll.force_full })
unfolding poll_fails poll_caught
poll_fails-poll p msg hidden w = settle-poll _ hidden _

pub focus-poll : (id : Option ℕ) (w : World) → (focus id w).poll ≡ w.poll
unfolding focus sync_url
focus-poll id w = refresh_detail-poll _ _

pub set_inspector_tab-poll :
    (tab : InspectorTab) (w : World) → (set_inspector_tab tab w).poll ≡ w.poll
unfolding set_inspector_tab
set_inspector_tab-poll tab w = refresh_detail-poll _ _

-- The removal touches the polling only by asking for a full pass.
abbrev pub Refreshed : Poll → Poll → Type 0
Refreshed p q = (q ≡ p) ⊎ (q ≡ forced_once p)

clear_tally-poll : (token : ℕ) (r : Removing) (w : World) → (clear_tally token r w).poll ≡ w.poll
unfolding clear_tally toast
clear_tally-poll token r w = ground arith

finish_removal-poll : (token : ℕ) (w : World) → (finish_removal token w).poll ≡ forced_once w.poll
unfolding finish_removal
finish_removal-poll token w = elim (Option-cases (refresh_now w).snap.removing) [
  | inl gone ↦ rw (gone, finish_removal) (refresh_now-poll w)
  | inr (r, shown) ↦
      rw (shown, finish_removal) (clear_tally-poll token r (refresh_now w) ∙ refresh_now-poll w)
]

next_removal-poll :
    (token : ℕ) (rest : List ℕ) (w : World) → Refreshed w.poll (next_removal token rest w).poll
unfolding next_removal send_remove
next_removal-poll token [] w = inr (finish_removal-poll token w)
next_removal-poll token (id ∷ rest) w = elim (Option-cases (mine token w.snap.removing)) [
  | inl lost ↦ inr (rw (lost, next_removal) (finish_removal-poll token w))
  | inr (r, own) ↦ elim (Bool-cases r.stopped) [
    | inl stop ↦ inr (rw (own, next_removal, stop) (finish_removal-poll token w))
    | inr go ↦ inl (rw (own, next_removal, go) refl)
  ]
]

settle_reply-poll :
    (token id : ℕ) (reply : Reply) (w : World) → (settle_reply token id reply w).poll ≡ w.poll
unfolding settle_reply drop_row sync_url
settle_reply-poll token id done w = ground arith
settle_reply-poll token id (error msg) w = refl

pub removal_replies-poll :
    (run : Run) (reply : Reply) (w : World) → Refreshed w.poll (removal_replies run reply w).poll
unfolding removal_replies
removal_replies-poll run reply w =
    let v =
      settle_reply run.token run.current reply (record w { runs = without run.token w.runs }) in
    subst (λ (p : Poll). Refreshed p (next_removal run.token run.rest v).poll)
      (settle_reply-poll run.token run.current reply (record w { runs = without run.token w.runs }))
      (next_removal-poll run.token run.rest v)

pub remove_sequence-poll :
    (ids : List ℕ) (w : World) → Refreshed w.poll (remove_sequence ids w).poll
unfolding remove_sequence start_removal toast
remove_sequence-poll [] w = inl refl
remove_sequence-poll (i ∷ ids) w = elim (Bool-cases (is_busy w.snap.removing)) [
  | inl busy ↦ inl (rw (busy, remove_sequence) refl)
  | inr free ↦ rw (free, remove_sequence) (next_removal-poll _ _ _)
]

pub run_ends-poll :
    (label : Text) (reply : Reply) (w : World) → Refreshed w.poll (run_ends label reply w).poll
unfolding run_ends toast
run_ends-poll label done w = inr (refresh_now-poll w)
run_ends-poll label (error msg) w = inl refl
