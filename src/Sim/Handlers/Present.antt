-- ===== src/Sim/Handlers/Present.antt =====
-- Which torrents are there after a request.
use transmission_ui.Prelude.{
  ltb, ==_iff, ==_refl, Bool-cases, or_else, keep, Text, text_eq, ℕ, ◌≡◌, refl, ap, ◌∙◌, inl, inr,
  Bool, true, not, ◌&&◌, Option, none, some, List, [], ◌∷◌, map, arith,
}
use transmission_ui.Prelude.Keyed.{nat_eq, text_eq_inst, contains}
use transmission_ui.Types.{whole, Session}
use transmission_ui.Types.Detail.{TorrentDetail}
use transmission_ui.Sim.{Space, SimState}
use transmission_ui.Sim.Derive.{is_checking, reconcile, renumber_queue}
use transmission_ui.Sim.Queue.{ids, promote_queue, queue_move}
use transmission_ui.Sim.Requests.{
  Args, Method, session_get, session_set, session_stats, free_space, port_test, blocklist_update,
  torrent_get, torrent_start, torrent_start_now, torrent_stop, torrent_verify, torrent_reannounce,
  torrent_remove, torrent_set, torrent_set_location, torrent_rename_path, torrent_add,
  queue_move_to, method_of, Handled, answered, failed,
}
use transmission_ui.Sim.Adding.Names.{Parts}
use transmission_ui.Sim.Adding.Arrivals.{arrivals_of, joined_by, ids-add_torrent}
use transmission_ui.Sim.Requests.{adds}
use transmission_ui.Sim.Ids.{Ids, recently_active, these, normalize_ids, names_id, is_selected}
use transmission_ui.Sim.Edit.{
  start, fold_back, stop, verify, reannounce, FileMarks, retotal, set_trackers, set, rename,
}
use transmission_ui.Sim.Dispatch.{run, dispatch, handle}
use transmission_ui.Sim.Handlers.{
  base_dir, space_answer, free_space_at, selected, edit, promoted, start_each_now, drop_each,
  remove, relocated, wants_detail, is_listed, torrent_get_answer, list_of_ids, naturals,
  not_checking, same_torrent,
}
use transmission_ui.Sim.Handlers.Kept.{
  ids-edit, ids-renumber_queue, ids-promote_queue, ids-start_each_now, ids-queue_move,
  ids-refresh_maps,
}

-- The ids that are left when the selected torrents go.
abbrev pub unselected : Option Ids → List TorrentDetail → List ℕ
unselected ks ts = ids (keep (λ t. not (is_selected ks t)) ts)

selects : Option Ids → ℕ → Bool
selects (some (these ks)) i = names_id ks i
selects (some recently_active) i = true
selects none i = true

is_selected-selects : (ks : Option Ids) (t : TorrentDetail) → is_selected ks t ≡ selects ks t.id
unfolding is_selected selects
is_selected-selects (some (these ks)) t = refl
is_selected-selects (some recently_active) t = refl
is_selected-selects none t = refl

contains-selected :
    (ks : Option Ids) (i : ℕ) (ts : List TorrentDetail)
    → contains i (ids (selected ks ts)) ≡ (selects ks i && contains i (ids ts))
contains-selected ks i [] = ground arith
contains-selected ks i (t ∷ ts) = ground (
  arith,
  contains-selected ks i ts,
  is_selected-selects ks t,
  λ (e : t.id ≡ i). ap (selects ks) e,
  ==_iff t.id i,
)

keep-unselected :
    (ks : Option Ids) (ts us : List TorrentDetail)
    → ((i : ℕ) → contains i (ids us) ≡ true → contains i (ids ts) ≡ true)
    → ids (keep (λ t. not (contains t.id (map (λ (g : TorrentDetail). g.id) (selected ks ts)))) us)
      ≡ unselected ks us
keep-unselected ks ts [] h = refl
keep-unselected ks ts (u ∷ us) h =
    let rest = keep-unselected ks ts us (λ i m. h i (ground (arith, m))) in
    let here : contains u.id (ids ts) ≡ true = h u.id (ground (arith, ==_refl u.id)) in
    let gone : contains u.id (map (λ (g : TorrentDetail). g.id) (selected ks ts))
        ≡ is_selected ks u =
      ground (arith, contains-selected ks u.id ts, here, is_selected-selects ks u) in
    elim (Bool-cases (is_selected ks u)) [
      | inl goes ↦ rw (gone, goes) rest
      | inr kept ↦ rw (gone, kept) (ap (◌∷◌ u.id) rest)
    ]

ids-remove :
    (purge : Bool) (now : ℕ) (ks : Option Ids) (s : SimState)
    → ids (remove purge now ks s).torrents ≡ unselected ks s.torrents
unfolding remove promoted
ids-remove purge now ks s =
    let kept =
      keep (λ t. not (contains t.id (map (λ (g : TorrentDetail). g.id) (selected ks s.torrents))))
        s.torrents in
    ids-promote_queue (drop_each purge now (selected ks s.torrents) s).session now
      (renumber_queue kept)
    ∙ (ids-renumber_queue kept ∙ keep-unselected ks s.torrents s.torrents (λ i m. m))

-- The torrents after a request.
abbrev pub torrents_after : SimState → Handled → List TorrentDetail
torrents_after s (answered a s1) = s1.torrents
torrents_after s (failed e) = s.torrents

-- The id of a torrent that the answer says was added.
abbrev pub arrivals : Handled → List ℕ
arrivals (answered (adds result) s) = arrivals_of result
arrivals _ = []

abbrev pub ids_after : Option Method → Option Ids → List TorrentDetail → List ℕ
ids_after (some torrent_remove) ks ts = unselected ks ts
ids_after _ ks ts = ids ts

reconcile-id : (t : TorrentDetail) → (reconcile t).id ≡ t.id
unfolding reconcile
reconcile-id t = elim (Bool-cases (ltb t.metadata_percent_complete whole)) [
  | inl early ↦ rw (early, reconcile) refl
  | inr complete ↦ rw (complete, reconcile) refl
]

stop-id : (t : TorrentDetail) → (stop t).id ≡ t.id
unfolding stop fold_back
stop-id t = elim (Bool-cases (is_checking t.status)) [
  | inl checking ↦ rw (checking, stop) (reconcile-id _)
  | inr idle ↦ rw (idle, stop) refl
]

module _ (encode : Text → Text) (host_of : Text → Text) where
  set-id :
      (s : Session) (m : FileMarks) (assign : TorrentDetail → TorrentDetail) (list : Option Text)
      → ((t : TorrentDetail) → (assign t).id ≡ t.id)
      → (t : TorrentDetail) → (set encode host_of s m assign list t).id ≡ t.id
  unfolding set retotal set_trackers
  set-id s m assign none h t = reconcile-id _ ∙ h _
  set-id s m assign (some text) h t = reconcile-id _ ∙ h _

  rename-id : (path name : Text) (t : TorrentDetail) → (rename encode host_of path name t).id ≡ t.id
  unfolding rename
  rename-id path name t = elim (Bool-cases (text_eq path t.name)) [
    | inl top ↦ rw (top, rename) refl
    | inr inner ↦ rw (inner, rename) refl
  ]

ids-space_answer :
    (path : Text) (s : SimState) (o : Option Space)
    → ids (torrents_after s (space_answer path s o))
      ≡ joined_by (arrivals (space_answer path s o)) (ids s.torrents)
ids-space_answer path s none = refl
ids-space_answer path s (some e) = refl

module _ (encode : Text → Text) (host_of : Text → Text) (parts : Parts) where
  ids-edited :
      (settings : Session) (p : TorrentDetail → Bool) (now : ℕ) (f : TorrentDetail → TorrentDetail)
      (ts : List TorrentDetail)
      → ((t : TorrentDetail) → (f t).id ≡ t.id)
      → ids (promote_queue settings now (edit p now f ts)) ≡ ids ts
  ids-edited settings p now f ts keeps =
      ids-promote_queue settings now (edit p now f ts) ∙ ids-edit f keeps p now ts

  ids-run :
      (k : Method) (ks : Option Ids) (args : Args) (now : ℕ) (s : SimState)
      → ((t : TorrentDetail) → (args.torrent t).id ≡ t.id)
      → ids (torrents_after s (run encode host_of parts k ks args now s))
        ≡ joined_by
            (arrivals (run encode host_of parts k ks args now s))
            (ids_after (some k) ks s.torrents)
  unfolding run promoted torrent_get_answer free_space_at start verify reannounce not_checking
  ids-run session_get ks args now s h = refl
  ids-run session_set ks args now s h = ids-promote_queue (args.session s.session) now s.torrents
  ids-run session_stats ks args now s h = refl
  ids-run free_space ks args now s h = ids-space_answer _ s _
  ids-run port_test ks args now s h = refl
  ids-run blocklist_update ks args now s h = refl
  ids-run torrent_get ks args now s h = elim (Bool-cases (wants_detail args.fields)) [
    | inl detail ↦ rw detail (ids-refresh_maps s (is_listed now s ks) s.torrents)
    | inr summary ↦ rw summary refl
  ]
  ids-run torrent_start ks args now s h =
      ids-edited s.session (not_checking ks) now start s.torrents (λ t. refl)
  ids-run torrent_start_now ks args now s h =
      let started = map (λ (t : TorrentDetail). t.id) (keep (not_checking ks) s.torrents) in
      ids-promote_queue s.session now (start_each_now now started s.torrents)
      ∙ ids-start_each_now now started s.torrents
  ids-run torrent_stop ks args now s h =
      ids-edited s.session (is_selected ks) now stop s.torrents stop-id
  ids-run torrent_verify ks args now s h =
      ids-edited s.session (is_selected ks) now verify s.torrents (λ t. refl)
  ids-run torrent_reannounce ks args now s h =
      ids-edit (reannounce now) (λ t. refl) (is_selected ks) now s.torrents
  ids-run torrent_remove ks args now s h = ids-remove args.delete_local_data now ks s
  ids-run torrent_set ks args now s h =
      let change = set encode host_of s.session args.marks args.torrent args.tracker_list in
      ids-edit change (set-id encode host_of s.session args.marks args.torrent args.tracker_list h)
        (is_selected ks) now s.torrents
  ids-run torrent_set_location ks args now s h =
      ids-edit (relocated (or_else args.location base_dir)) (λ t. refl) (is_selected ks) now
        s.torrents
  ids-run torrent_rename_path ks args now s h =
      let path = or_else args.path [] in
      let name = or_else args.name [] in
      ids-edit (rename encode host_of path name) (rename-id encode host_of path name)
        (is_selected ks) now s.torrents
  ids-run torrent_add ks args now s h = ids-add_torrent parts args.adding args.marks now s
  ids-run (queue_move_to direction) ks args now s h =
      let order = queue_move direction (naturals (list_of_ids ks)) s.torrents in
      ids-edited s.session (is_selected ks) now same_torrent order (λ t. refl)
      ∙ ids-queue_move direction (naturals (list_of_ids ks)) s.torrents

  -- No request but torrent_remove and torrent_add loses, adds or reorders a torrent; torrent_remove takes away just
  -- those it selects, and torrent_add puts the torrent that its answer says was added behind the others; assigning
  -- the members of a request to a torrent keeps its id.
  pub handle-ids :
      (s : SimState) (method : Text) (args : Args) (now : ℕ)
      → ((t : TorrentDetail) → (args.torrent t).id ≡ t.id)
      → ids (torrents_after s (handle encode host_of parts s method args now))
        ≡ joined_by
            (arrivals (handle encode host_of parts s method args now))
            (ids_after (method_of method) (normalize_ids s.torrents args.ids) s.torrents)
  unfolding handle dispatch
  handle-ids s method args now h = dispatched (method_of method)
    where
      dispatched :
          (o : Option Method)
          → ids (torrents_after s (dispatch encode host_of parts o s method args now))
            ≡ joined_by
                (arrivals (dispatch encode host_of parts o s method args now))
                (ids_after o (normalize_ids s.torrents args.ids) s.torrents)
      dispatched none = refl
      dispatched (some k) = ids-run k (normalize_ids s.torrents args.ids) args now s h
