-- ===== src/Store/Frames.antt =====
-- What the operations of the store leave alone: the bulk removal's part of it, and the rows.
use transmission_ui.Prelude.{
  ℕ, ◌≡◌, refl, ◌∙◌, Bool, true, false, if◌then◌else◌, List, Option, Text, arith, inl, inr,
  Bool-cases,
}
use transmission_ui.Store.{Snapshot, World, Pass, Removing, Run, Extra, InspectorTab, DetailRequest}
use transmission_ui.Store.Url.{sync_url}
use transmission_ui.Store.Merge.{merged}
use transmission_ui.Store.Detail.{refresh_detail, detail_arrives}
use transmission_ui.Store.Polling.{
  PollAnswer, poll_once, settle, refresh_free_space, show_answer, drop_focus, poll_answered,
  poll_succeeds, poll_fails, refresh_now,
}
use transmission_ui.Store.Actions.{toast, focus, set_inspector_tab, Reply, done, error, run_ends}

-- The bulk removal's part of the store.
pub record RemovalPart : Type 0 where
  pub removing : Option Removing
  pub runs : List Run
  pub removal_token : ℕ
  pub sent : List (ℕ × ℕ)

abbrev pub removal_part : World → RemovalPart
removal_part w = record {
  removing = w.snap.removing;
  runs = w.runs;
  removal_token = w.removal_token;
  sent = w.sent;
}

pub refresh_detail-removal_part :
    (full : Bool) (w : World) → removal_part (refresh_detail full w) ≡ removal_part w
unfolding refresh_detail
refresh_detail-removal_part full w = ground arith

pub poll_once-removal_part : (w : World) → removal_part (poll_once w) ≡ removal_part w
unfolding poll_once refresh_detail
poll_once-removal_part w = ground arith

pub refresh_now-removal_part : (w : World) → removal_part (refresh_now w) ≡ removal_part w
unfolding refresh_now
refresh_now-removal_part w = poll_once-removal_part _

settle-removal_part :
    (unauth hidden : Bool) (w : World) → removal_part (settle unauth hidden w) ≡ removal_part w
unfolding settle
settle-removal_part unauth hidden w = elim (Bool-cases w.poll.poll_again) [
  | inl again ↦ rw (again, settle) (poll_once-removal_part _)
  | inr idle ↦ rw (idle, settle) (ground arith)
]

drop_focus-removal_part : (w : World) → removal_part (drop_focus w) ≡ removal_part w
unfolding drop_focus sync_url
drop_focus-removal_part w = ground arith

show_answer-removing :
    (ticks : ℕ) (full : Bool) (a : PollAnswer) (s : Snapshot)
    → (show_answer ticks full a s).removing ≡ s.removing
unfolding show_answer merged
show_answer-removing ticks full a s = ground arith

maybe_space-removal_part :
    (b : Bool) (w : World) → removal_part (if b then refresh_free_space w else w) ≡ removal_part w
unfolding refresh_free_space
maybe_space-removal_part true w = refl
maybe_space-removal_part false w = refl

poll_answered-removal_part :
    (p : Pass) (a : PollAnswer) (w : World) → removal_part (poll_answered p a w) ≡ removal_part w
unfolding poll_answered
poll_answered-removal_part p a w =
    maybe_space-removal_part _ _
    ∙ (drop_focus-removal_part _
        ∙ ground (arith, show_answer-removing w.poll.ticks p.full a w.snap))

pub poll_succeeds-removal_part :
    (p : Pass) (a : PollAnswer) (hidden : Bool) (w : World)
    → removal_part (poll_succeeds p a hidden w) ≡ removal_part w
unfolding poll_succeeds
poll_succeeds-removal_part p a hidden w =
    settle-removal_part _ _ _ ∙ poll_answered-removal_part p a w

pub poll_fails-removal_part :
    (p : Pass) (msg : Text) (hidden : Bool) (w : World)
    → removal_part (poll_fails p msg hidden w) ≡ removal_part w
unfolding poll_fails
poll_fails-removal_part p msg hidden w = settle-removal_part _ _ _

pub detail_arrives-removing :
    (r : DetailRequest) (d : Option Extra) (s : Snapshot)
    → (detail_arrives r d s).removing ≡ s.removing
unfolding detail_arrives
detail_arrives-removing r d s = ground arith

pub run_ends-removal_part :
    (label : Text) (r : Reply) (w : World) → removal_part (run_ends label r w) ≡ removal_part w
unfolding run_ends toast
run_ends-removal_part label done w = refresh_now-removal_part w
run_ends-removal_part label (error msg) w = refl

pub focus-removal_part : (id : Option ℕ) (w : World) → removal_part (focus id w) ≡ removal_part w
unfolding focus sync_url
focus-removal_part id w = refresh_detail-removal_part _ _

pub set_inspector_tab-removal_part :
    (tab : InspectorTab) (w : World) → removal_part (set_inspector_tab tab w) ≡ removal_part w
unfolding set_inspector_tab
set_inspector_tab-removal_part tab w = refresh_detail-removal_part _ _
