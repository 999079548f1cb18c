-- ===== src/Sim/Queue.antt =====
-- `promoteQueue` of ui/sim/tick.ts and `queueMove` of ui/sim/handlers.ts. A torrent is the object with its id.
pub mod Starts
pub mod Pairs
pub mod Verifies
pub mod Promotion
use transmission_ui.Prelude.{
  leb, ◌==◌, if◌then◌else◌, length, keep, any, Text, codes, text_eq, ℕ, Bool, not, ◌&&◌, List, [],
  ◌∷◌, ◌++◌, map, arith,
}
use transmission_ui.Prelude.Keyed.{nat_eq, text_eq_inst, contains}
use transmission_ui.Prelude.Comparison.{sort_by}
use transmission_ui.Types.{
  Status, check_wait, check, download_wait, download, seed_wait, seed, status_eq, Session,
}
use transmission_ui.Types.Detail.{TorrentFile, FileStat, Peer, PeersFrom, TorrentDetail}
use transmission_ui.Sim.Derive.{by_position, placed}

abbrev pub ids : List TorrentDetail → List ℕ
ids ts = map (λ t. t.id) ts

-- Writes to the torrent with an id.
abbrev pub at_id : ℕ → (TorrentDetail → TorrentDetail) → List TorrentDetail → List TorrentDetail
at_id k f [] = []
at_id k f (t ∷ ts) = (if t.id == k then f t else t) ∷ at_id k f ts

abbrev pub in_status : Status → List TorrentDetail → List TorrentDetail
in_status s ts = keep (λ t. status_eq t.status s) ts

unfoldable pub with_status : Status → ℕ → TorrentDetail → TorrentDetail
with_status s now t = record t { status = s; activity_date = now }

-- The loop of `pass` over the queued torrents.
unfoldable pub start_each : Status → Bool → ℕ → ℕ → List ℕ → List TorrentDetail → List TorrentDetail
unfolding with_status
start_each running enabled size now [] ts = ts
start_each running enabled size now (k ∷ ks) ts =
    let rest = start_each running enabled size now ks (at_id k (with_status running now) ts) in
    if enabled && leb size (length (in_status running ts)) then ts else rest

unfoldable pub pass : Status → Status → Bool → ℕ → ℕ → List TorrentDetail → List TorrentDetail
unfolding start_each
pass waiting running enabled size now ts =
    start_each running enabled size now (ids (sort_by by_position (in_status waiting ts))) ts

unfoldable pub begin_check : ℕ → TorrentDetail → TorrentDetail
begin_check now t = record t { status = check; recheck_progress = 0; activity_date = now }

abbrev pub begin_first : ℕ → List TorrentDetail → List TorrentDetail → List TorrentDetail
begin_first now [] ts = ts
begin_first now (t ∷ queued) ts = at_id t.id (begin_check now) ts

-- Only one torrent verifies at a time.
unfoldable pub next_check : ℕ → List TorrentDetail → List TorrentDetail
unfolding begin_check
next_check now ts =
    if any (λ t. status_eq t.status check) ts
    then ts
    else begin_first now (sort_by by_position (in_status check_wait ts)) ts

unfoldable pub promote_queue : Session → ℕ → List TorrentDetail → List TorrentDetail
unfolding pass next_check
promote_queue s now ts =
    let ts1 = pass download_wait download s.download_queue_enabled s.download_queue_size now ts in
    let ts2 = pass seed_wait seed s.seed_queue_enabled s.seed_queue_size now ts1 in
    next_check now ts2

-- `queueMove`: the torrents in the order of the queue.
abbrev pub in_order : List TorrentDetail → List TorrentDetail
in_order ts = sort_by by_position ts

-- One step up: `t` changes places with the torrent before it, unless that moves too.
abbrev pub step_up : (ℕ → Bool) → ℕ → List TorrentDetail → List TorrentDetail
step_up moves k [] = []
step_up moves k (a ∷ []) = a ∷ []
step_up moves k (a ∷ b ∷ ts) =
    let rest = step_up moves k (b ∷ ts) in
    if a.id == k
    then a ∷ b ∷ ts
    else if b.id == k
    then (if moves a.id then a ∷ b ∷ ts else b ∷ a ∷ ts)
    else a ∷ rest

abbrev pub step_down : (ℕ → Bool) → ℕ → List TorrentDetail → List TorrentDetail
step_down moves k [] = []
step_down moves k (a ∷ []) = a ∷ []
step_down moves k (a ∷ b ∷ ts) =
    let rest = step_down moves k (b ∷ ts) in
    if a.id == k then (if moves b.id then a ∷ b ∷ ts else b ∷ a ∷ ts) else a ∷ rest

-- `for (const t of seq)`
abbrev pub step_all :
    (ℕ → List TorrentDetail → List TorrentDetail) → List ℕ → List TorrentDetail → List TorrentDetail
step_all f [] ts = ts
step_all f (k ∷ ks) ts = step_all f ks (f k ts)

abbrev pub reverse_onto {ℓ} : {A : Type ℓ} → List A → List A → List A
reverse_onto [] ys = ys
reverse_onto (x ∷ xs) ys = reverse_onto xs (x ∷ ys)

unfoldable pub moved_order : Text → List ℕ → List TorrentDetail → List TorrentDetail
moved_order direction set ts =
    let moving = in_order (keep (λ t. contains t.id set) ts) in
    let rest = in_order (keep (λ t. not (contains t.id set)) ts) in
    let moves : ℕ → Bool = λ k. contains k set in
    if text_eq direction (codes "top")
    then moving ++ rest
    else if text_eq direction (codes "bottom")
    then rest ++ moving
    else if text_eq direction (codes "up")
    then step_all (step_up moves) (ids moving) (in_order ts)
    else step_all (step_down moves) (reverse_onto (ids moving) []) (in_order ts)

unfoldable pub queue_move : Text → List ℕ → List TorrentDetail → List TorrentDetail
unfolding moved_order
queue_move direction set ts =
    if any (λ t. contains t.id set) ts then placed (moved_order direction set ts) ts else ts
