-- ===== src/Store/Kept.antt =====
-- What is shown stays in step through the operations of the poll, the inspector and the actions.
use transmission_ui.Prelude.{
  ◌==◌, if◌then◌else◌, ==_iff, Bool-cases, Option-cases, is_some, is_id, length, all,
  length-take_last-le, Text, ℕ, ◌≤◌, ◌≡◌, refl, sym, ap, ◌∙◌, inl, inr, Bool, true, false, Option,
  none, some, List, [], ◌∷◌, ◌++◌, arith,
}
use transmission_ui.Prelude.Keyed.{nat_eq, text_eq_inst, lookup}
use transmission_ui.Types.{TorrentSummary}
use transmission_ui.Store.{InspectorTab, Extra, Snapshot, Pass, DetailRequest, World}
use transmission_ui.Store.Url.{sync_url}
use transmission_ui.Store.Merge.{
  Patch, untouched, new_array, new_rows, merge_torrents, apply_patch, merged,
}
use transmission_ui.Store.Merge.Rows.{IsTable, merged-IsTable}
use transmission_ui.Store.Detail.{refresh_detail, merge_detail, detail_arrives}
use transmission_ui.Store.Polling.{
  poll_once, settle, refresh_free_space, PollAnswer, show_answer, drop_focus, poll_answered,
  poll_caught, refresh_now,
}
use transmission_ui.Store.Actions.{
  toast, keeps_detail, focus, set_inspector_tab, Reply, done, error, run_ends,
}
use transmission_ui.Store.Steps.{Answers}

abbrev pub DetailFits : Option Extra → Option ℕ → Type 0
DetailFits none f = Unit {0}
DetailFits (some d) f = f ≡ some d.id

pub record IsShown (s : Snapshot) : Type 0 where
  pub rows : IsTable s.torrents s.by_id
  pub detail : DetailFits s.detail s.focus_id
  pub history : length s.history ≤ 60

pub same_rows :
    (s t : Snapshot)
    → t.torrents ≡ s.torrents
    → t.by_id ≡ s.by_id
    → t.detail ≡ s.detail
    → t.focus_id ≡ s.focus_id
    → t.history ≡ s.history
    → IsShown s
    → IsShown t
same_rows s t a b c d e h = record {
  rows = rw (a, b) (h.rows);
  detail = rw (c, d) (h.detail);
  history = rw e (h.history);
}

refresh_detail-snap : (full : Bool) (w : World) → (refresh_detail full w).snap ≡ w.snap
unfolding refresh_detail
refresh_detail-snap full w = ground arith

pub poll_once-snap : (w : World) → (poll_once w).snap ≡ w.snap
unfolding poll_once
poll_once-snap w = elim (Bool-cases w.poll.in_flight) [
  | inl busy ↦ rw (busy, poll_once)
  | inr free ↦ rw (free, poll_once) (refresh_detail-snap _ _)
]

pub refresh_now-snap : (w : World) → (refresh_now w).snap ≡ w.snap
unfolding refresh_now
refresh_now-snap w = poll_once-snap _

pub settle-snap : (unauth hidden : Bool) (w : World) → (settle unauth hidden w).snap ≡ w.snap
unfolding settle
settle-snap unauth hidden w = elim (Bool-cases w.poll.poll_again) [
  | inl again ↦ rw (again, settle) (poll_once-snap _)
  | inr idle ↦ rw (idle, settle) (ground arith)
]

maybe_space-snap : (b : Bool) (w : World) → (if b then refresh_free_space w else w).snap ≡ w.snap
unfolding refresh_free_space
maybe_space-snap true w = refl
maybe_space-snap false w = refl

unfocused : (s : Snapshot) → IsShown s → IsShown (record s { focus_id = none; detail = none })
unfocused s h = record { rows = h.rows; detail = tt; history = h.history }

drop_focus-IsShown : (w : World) → IsShown w.snap → IsShown (drop_focus w).snap
unfolding drop_focus sync_url
drop_focus-IsShown w h = elim (Option-cases w.snap.focus_id) [
  | inl closed ↦ rw (closed, drop_focus) h
  | inr (id, open_) ↦ elim (Bool-cases (is_some (lookup id w.snap.by_id))) [
    | inl there ↦ rw (open_, drop_focus, there) h
    | inr gone ↦ rw (open_, drop_focus, gone) (unfocused w.snap h)
  ]
]

apply_patch-detail :
    (x : Patch) (s : Snapshot)
    → DetailFits s.detail s.focus_id
    → DetailFits (apply_patch x s).detail (apply_patch x s).focus_id
unfolding apply_patch
apply_patch-detail untouched s h = h
apply_patch-detail (new_array ts) s h = h
apply_patch-detail (new_rows ts m) s h = h

merged-detail :
    (s : Snapshot) (ticks : ℕ) (list : List TorrentSummary) (removed : Option (List ℕ))
    (full : Bool)
    → DetailFits s.detail s.focus_id
    → DetailFits
        (merged s ticks list removed full).detail
        (merged s ticks list removed full).focus_id
unfolding merged
merged-detail s ticks list removed full h =
    apply_patch-detail (merge_torrents s ticks list removed full) s h

pub poll_answered-IsShown :
    (p : Pass) (a : PollAnswer) (w : World) → IsShown w.snap → IsShown (poll_answered p a w).snap
unfolding poll_answered show_answer
poll_answered-IsShown p a w h = rw (maybe_space-snap _ _) (
    drop_focus-IsShown _ (record {
      rows = merged-IsTable w.snap w.poll.ticks a.torrents a.removed p.full h.rows;
      detail = merged-detail w.snap w.poll.ticks a.torrents a.removed p.full h.detail;
      history = length-take_last-le 60 (
          w.snap.history
          ++ record { down = a.stats.download_speed; up = a.stats.upload_speed } ∷ []);
    }))

pub poll_caught-IsShown :
    (p : Pass) (msg : Text) (w : World) → IsShown w.snap → IsShown (poll_caught p msg w).snap
unfolding poll_caught
poll_caught-IsShown p msg w h = same_rows w.snap _ refl refl refl refl refl h

is_id-some : (o : Option ℕ) (n : ℕ) → is_id o n ≡ true → o ≡ some n
is_id-some none n h = cc
is_id-some (some m) n h = ap some ((==_iff m n).0 h)

merge_detail-fits :
    (id : ℕ) (d : Extra) (o : Option Extra) (f : Option ℕ)
    → f ≡ some d.id
    → DetailFits o f
    → DetailFits (merge_detail id d o) f
unfolding merge_detail
merge_detail-fits id d none f e h = tt
merge_detail-fits id d (some old) f e h = elim (Bool-cases (old.id == id)) [
  | inl same ↦ rw same e
  | inr other ↦ rw other h
]

pub detail_arrives-IsShown :
    (r : DetailRequest) (d : Option Extra) (s : Snapshot)
    → Answers r.id d
    → IsShown s
    → IsShown (detail_arrives r d s)
unfolding detail_arrives
detail_arrives-IsShown r none s e h = h
detail_arrives-IsShown r (some d) s e h = elim (Bool-cases (is_id s.focus_id r.id)) [
  | inr other ↦ rw (other, detail_arrives) h
  | inl same ↦
      let f : s.focus_id ≡ some d.id = is_id-some s.focus_id r.id same ∙ ap some (sym e) in
      elim (Bool-cases r.all) [
        | inl all ↦
            rw (same, detail_arrives, all)
              (record { rows = h.rows; detail = f; history = h.history })
        | inr part ↦
            rw (same, detail_arrives, part)
              (record {
                rows = h.rows;
                detail = merge_detail-fits r.id d s.detail s.focus_id f h.detail;
                history = h.history;
              })
      ]
]

pub run_ends-IsShown :
    (label : Text) (r : Reply) (w : World) → IsShown w.snap → IsShown (run_ends label r w).snap
unfolding run_ends toast
run_ends-IsShown label done w h = rw (refresh_now-snap w) h
run_ends-IsShown label (error msg) w h = same_rows w.snap _ refl refl refl refl refl h

keeps_detail-fits : (id : Option ℕ) (d : Option Extra) → DetailFits (keeps_detail id d) id
keeps_detail-fits none d = tt
keeps_detail-fits (some n) none = tt
keeps_detail-fits (some n) (some d) = elim (Bool-cases (d.id == n)) [
  | inl same ↦ rw same (ap some (sym ((==_iff d.id n).0 same)))
  | inr other ↦ rw other tt
]

pub focus-IsShown : (id : Option ℕ) (w : World) → IsShown w.snap → IsShown (focus id w).snap
unfolding focus sync_url
focus-IsShown id w h =
    rw (refresh_detail-snap true _)
      (record { rows = h.rows; detail = keeps_detail-fits id w.snap.detail; history = h.history })

pub set_inspector_tab-IsShown :
    (tab : InspectorTab) (w : World) → IsShown w.snap → IsShown (set_inspector_tab tab w).snap
unfolding set_inspector_tab
set_inspector_tab-IsShown tab w h =
    rw (refresh_detail-snap false _) (same_rows w.snap _ refl refl refl refl refl h)
