-- ===== src/Sim/Handlers/Kept.antt =====
-- The loops of the requests keep the ids of the torrents.
use mathlib.Core.Path.{ap₂}
use transmission_ui.Prelude.{
  leb, ◌==◌, Bool-cases, length, any, Text, ℕ, ◌≡◌, refl, ap, ◌∙◌, inl, inr, Bool, ◌&&◌, Option,
  none, some, List, [], ◌∷◌, arith,
}
use transmission_ui.Prelude.Keyed.{nat_eq, text_eq_inst, contains}
use transmission_ui.Prelude.Comparison.{sort_by}
use transmission_ui.Types.{
  Status, check_wait, check, download_wait, download, seed_wait, seed, status_eq, Session,
}
use transmission_ui.Types.Detail.{TorrentDetail}
use transmission_ui.Sim.{SimState}
use transmission_ui.Sim.Derive.{by_position, place_of, at_place, placed, renumber_queue}
use transmission_ui.Sim.Queue.{
  ids, at_id, in_status, with_status, start_each, pass, begin_check, begin_first, next_check,
  promote_queue, queue_move,
}
use transmission_ui.Sim.Edit.{touched, start_now, set}
use transmission_ui.Sim.Pieces.{refresh_piece_map}
use transmission_ui.Sim.Handlers.{edit, start_each_now, swarm_at, refresh_maps}

module _ (f : TorrentDetail → TorrentDetail) (keeps : (t : TorrentDetail) → (f t).id ≡ t.id) where
  pub ids-edit :
      (p : TorrentDetail → Bool) (now : ℕ) (ts : List TorrentDetail)
      → ids (edit p now f ts) ≡ ids ts
  ids-edit p now [] = refl
  ids-edit p now (t ∷ ts) = ground (arith, keeps t, ids-edit p now ts)

  pub ids-written : (k : ℕ) (ts : List TorrentDetail) → ids (at_id k f ts) ≡ ids ts
  ids-written k [] = refl
  ids-written k (t ∷ ts) = ground (arith, keeps t, ids-written k ts)

pub ids-placed : (order ts : List TorrentDetail) → ids (placed order ts) ≡ ids ts
unfolding placed
ids-placed order [] = refl
ids-placed order (t ∷ ts) = ap₂ ◌∷◌ (same_id (place_of t.id order 0)) (ids-placed order ts)
  where
    same_id : (o : Option ℕ) → (at_place o t).id ≡ t.id
    same_id none = refl
    same_id (some i) = refl

pub ids-renumber_queue : (ts : List TorrentDetail) → ids (renumber_queue ts) ≡ ids ts
unfolding renumber_queue
ids-renumber_queue ts = ids-placed _ ts

pub ids-start_each :
    (running : Status) (enabled : Bool) (size now : ℕ) (ks : List ℕ) (ts : List TorrentDetail)
    → ids (start_each running enabled size now ks ts) ≡ ids ts
unfolding start_each with_status
ids-start_each running enabled size now [] ts = refl
ids-start_each running enabled size now (k ∷ ks) ts =
    elim (Bool-cases (enabled && leb size (length (in_status running ts)))) [
      | inl over ↦ rw over refl
      | inr free ↦ rw free (
          ids-start_each running enabled size now ks (at_id k (with_status running now) ts)
          ∙ ids-written (with_status running now) (λ t. refl) k ts)
    ]

pub ids-begin_first :
    (now : ℕ) (queued ts : List TorrentDetail) → ids (begin_first now queued ts) ≡ ids ts
unfolding begin_check
ids-begin_first now [] ts = refl
ids-begin_first now (t ∷ queued) ts = ids-written (begin_check now) (λ u. refl) t.id ts

pub ids-next_check : (now : ℕ) (ts : List TorrentDetail) → ids (next_check now ts) ≡ ids ts
unfolding next_check
ids-next_check now ts = elim (Bool-cases (any (λ t. status_eq t.status check) ts)) [
  | inl busy ↦ rw busy refl
  | inr idle ↦ rw idle (ids-begin_first now (sort_by by_position (in_status check_wait ts)) ts)
]

pub ids-promote_queue :
    (s : Session) (now : ℕ) (ts : List TorrentDetail) → ids (promote_queue s now ts) ≡ ids ts
unfolding promote_queue pass
ids-promote_queue s now ts =
    let queued = ids (sort_by by_position (in_status download_wait ts)) in
    let ts1 = start_each download s.download_queue_enabled s.download_queue_size now queued ts in
    let queued1 = ids (sort_by by_position (in_status seed_wait ts1)) in
    let ts2 = start_each seed s.seed_queue_enabled s.seed_queue_size now queued1 ts1 in
    ids-next_check now ts2
    ∙ (ids-start_each seed s.seed_queue_enabled s.seed_queue_size now queued1 ts1
        ∙ ids-start_each download s.download_queue_enabled s.download_queue_size now queued ts)

pub ids-start_each_now :
    (now : ℕ) (ks : List ℕ) (ts : List TorrentDetail) → ids (start_each_now now ks ts) ≡ ids ts
unfolding start_each_now start_now
ids-start_each_now now [] ts = refl
ids-start_each_now now (k ∷ ks) ts =
    let f : TorrentDetail → TorrentDetail = λ t. touched now (start_now t) in
    ids-start_each_now now ks (renumber_queue (at_id k f ts))
    ∙ (ids-renumber_queue (at_id k f ts) ∙ ids-written f (λ t. refl) k ts)

pub ids-queue_move :
    (direction : Text) (set : List ℕ) (ts : List TorrentDetail)
    → ids (queue_move direction set ts) ≡ ids ts
unfolding queue_move
ids-queue_move direction set ts = elim (Bool-cases (any (λ t. contains t.id set) ts)) [
  | inl some_move ↦ rw some_move (ids-placed _ ts)
  | inr none_moves ↦ rw none_moves refl
]

pub refresh_piece_map-id : (swarm : ℕ) (t : TorrentDetail) → (refresh_piece_map swarm t).id ≡ t.id
unfolding refresh_piece_map
refresh_piece_map-id swarm t = elim (Bool-cases (t.piece_count == 0)) [
  | inl none_there ↦ rw (none_there, refresh_piece_map) refl
  | inr some_there ↦ rw (some_there, refresh_piece_map) refl
]

pub ids-refresh_maps :
    (s : SimState) (p : TorrentDetail → Bool) (ts : List TorrentDetail)
    → ids (refresh_maps s p ts) ≡ ids ts
ids-refresh_maps s p [] = refl
ids-refresh_maps s p (t ∷ ts) = elim (Bool-cases (p t)) [
  | inl listed ↦
      rw listed (ap₂ ◌∷◌ (refresh_piece_map-id (swarm_at s t) t) (ids-refresh_maps s p ts))
  | inr unlisted ↦ rw unlisted (ap (◌∷◌ t.id) (ids-refresh_maps s p ts))
]
