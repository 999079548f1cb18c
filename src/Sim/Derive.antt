-- ===== src/Sim/Derive.antt =====
-- ui/sim/derive.ts: the fields of a torrent that the daemon computes. A function that writes to its argument
-- returns the new one.
pub mod Totals
use transmission_ui.Prelude.{
  ltb, ◌==◌, if◌then◌else◌, length, ℕ, suc, ◌+◌, ◌-◌, ◌*◌, ◌/◌, min, Bool, ◌||◌, Option, none, some,
  List, [], ◌∷◌, ◌++◌, arith,
}
use transmission_ui.Prelude.Int.{ℤ, pos, le_int}
use transmission_ui.Prelude.Comparison.{Sign, before, same, after, or_sign, minus, sort_by}
use transmission_ui.Types.{whole, Status, check_wait, check, status_eq}
use transmission_ui.Types.Detail.{TorrentFile, FileStat, Peer, PeersFrom, TorrentDetail}

unfoldable pub is_checking : Status → Bool
is_checking s = status_eq s check || status_eq s check_wait

-- `Math.round(n * pct)` within the bounds.
unfoldable pub pieces_had : ℕ → ℕ → ℕ
pieces_had count pct = min count ((2 * count * pct + whole) / (2 * whole))

-- The bytes given to a file.
abbrev pub give : ℕ → TorrentFile → TorrentFile
give n f = record f { bytes_completed = n }

abbrev pub give_stat : ℕ → FileStat → FileStat
give_stat n s = record s { bytes_completed = n }

-- A file with no entry in `file_stats` counts as wanted.
abbrev pub Table : Type 0
Table = List TorrentFile × List FileStat

abbrev pub on_top : TorrentFile → List FileStat → Table → Table
on_top f s (fs, ss) = (f ∷ fs, s ++ ss)

unfoldable pub distribute_bytes : List TorrentFile → List FileStat → ℕ → Table
distribute_bytes [] ss left = ([], ss)
distribute_bytes (f ∷ fs) [] left =
    let part = min f.length left in on_top (give part f) [] (distribute_bytes fs [] (left - part))
distribute_bytes (f ∷ fs) (s ∷ ss) left =
    let part = min f.length left in
    let skipped = distribute_bytes fs ss left in
    let given = distribute_bytes fs ss (left - part) in
    if s.wanted
    then on_top (give part f) (give_stat part s ∷ []) given
    else on_top f (s ∷ []) skipped

-- The sum of a measure over the wanted files.
abbrev pub sum_wanted : (TorrentFile → ℕ) → List TorrentFile → List FileStat → ℕ
sum_wanted g [] ss = 0
sum_wanted g (f ∷ fs) [] = g f + sum_wanted g fs []
sum_wanted g (f ∷ fs) (s ∷ ss) = (if s.wanted then g f else 0) + sum_wanted g fs ss

unfoldable pub wanted_size : TorrentDetail → ℕ
wanted_size t = sum_wanted (λ f. f.length) t.files t.file_stats

unfoldable pub wanted_have : TorrentDetail → ℕ
wanted_have t = sum_wanted (λ f. min f.bytes_completed f.length) t.files t.file_stats

-- The share of the wanted bytes, in millionths.
abbrev pub share : ℕ → ℕ → ℕ
share part size = if ltb 0 size then min whole (part * whole / size) else 0

unfoldable pub reconcile : TorrentDetail → TorrentDetail
reconcile t =
    if ltb t.metadata_percent_complete whole
    then t
    else let valid = min t.size_when_done t.have_valid in
      let unchecked = min (t.size_when_done - valid) t.have_unchecked in
      record t {
        have_valid = valid;
        have_unchecked = unchecked;
        left_until_done = t.size_when_done - valid - unchecked;
        percent_done = share valid t.size_when_done;
      }

-- `a - b` of two integers, for a comparator.
abbrev pub minus_int : ℤ → ℤ → Sign
minus_int a b = if le_int a b then (if le_int b a then same else before) else after

abbrev pub by_position : TorrentDetail → TorrentDetail → Sign
by_position a b = minus_int a.queue_position b.queue_position

-- Where an id stands in a list, counted from `i`.
abbrev pub place_of : ℕ → List TorrentDetail → ℕ → Option ℕ
place_of k [] i = none
place_of k (t ∷ ts) i = let rest = place_of k ts (suc i) in if t.id == k then some i else rest

abbrev pub at_place : Option ℕ → TorrentDetail → TorrentDetail
at_place none t = t
at_place (some i) t = record t { queue_position = pos i }

-- `order.forEach((t, i) => { t.queue_position = i })`, for the torrents in the order they are kept in.
unfoldable pub placed : List TorrentDetail → List TorrentDetail → List TorrentDetail
placed order [] = []
placed order (t ∷ ts) = at_place (place_of t.id order 0) t ∷ placed order ts

unfoldable pub renumber_queue : List TorrentDetail → List TorrentDetail
renumber_queue ts = placed (sort_by (λ a b. or_sign (by_position a b) (minus a.id b.id)) ts) ts
