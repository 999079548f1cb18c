-- ===== src/Sim/Handlers.antt =====
-- What the methods of `handle` in ui/sim/handlers.ts do, but for `torrent_add`.
pub mod Kept
pub mod Present
pub mod Errors
use transmission_ui.Prelude.{
  leb, if◌then◌else◌, length, keep, Text, codes, text_eq, ℕ, ◌+◌, ◌-◌, Bool, true, false, not, ◌&&◌,
  ◌||◌, Option, none, some, List, [], ◌∷◌, ◌++◌, map, arith,
}
use transmission_ui.Prelude.Int.{ℤ, pos, negsuc, plus_ℕ, minus_ℕ}
use transmission_ui.Prelude.Keyed.{nat_eq, text_eq_inst, contains, lookup, insert, erase}
use transmission_ui.Json.{fields}
use transmission_ui.Paths.{slash, is_under, mount_of, rel_dir}
use transmission_ui.Types.{stopped, status_eq, SessionStats}
use transmission_ui.Types.Detail.{TorrentFile, FileStat, Peer, PeersFrom, TorrentDetail}
use transmission_ui.Sim.{SimFields, Removed, Space, SimState}
use transmission_ui.Sim.Derive.{is_checking, renumber_queue}
use transmission_ui.Sim.Queue.{ids, at_id, promote_queue}
use transmission_ui.Sim.Pieces.{refresh_piece_map}
use transmission_ui.Sim.Ids.{Ids, recently_active, these, names_id, is_selected}
use transmission_ui.Sim.Edit.{touched, start_now, prev_status_of}
use transmission_ui.Sim.Requests.{empty, session, space, torrents, Handled, answered, failed}

-- `BASE` of ui/sim/data.ts.
abbrev pub base_dir : Text
base_dir = codes "/data/torrents"

abbrev pub sum_of : (TorrentDetail → ℕ) → List TorrentDetail → ℕ
sum_of g [] = 0
sum_of g (t ∷ ts) = g t + sum_of g ts

unfoldable pub stats_of : SimState → SessionStats
stats_of s =
    let active = length (keep (λ t. not (status_eq t.status stopped)) s.torrents) in
    record {
      active_torrent_count = active;
      paused_torrent_count = length s.torrents - active;
      torrent_count = length s.torrents;
      download_speed = sum_of (λ t. t.rate_download) s.torrents;
      upload_speed = sum_of (λ t. t.rate_upload) s.torrents;
      cumulative_stats = s.cum;
      current_stats = s.cur;
    }

-- `a ?? b`
abbrev pub or_space : Option Space → Option Space → Option Space
or_space none b = b
or_space (some e) b = some e

abbrev pub space_answer : Text → SimState → Option Space → Handled
space_answer path s none = failed (codes "TypeError")
space_answer path s (some e) = answered (space path e.size e.total) s

-- `state.space.get(mount) ?? state.space.get(BASE)!`; without either the source throws a TypeError.
unfoldable pub free_space_at : Text → SimState → Handled
free_space_at path s =
    space_answer path s
      (or_space (lookup (mount_of path s.session.download_dir) s.space) (lookup base_dir s.space))

abbrev pub selected : Option Ids → List TorrentDetail → List TorrentDetail
selected ids ts = keep (is_selected ids) ts

-- `for (const t of ts) ...; touch(ts)` over the torrents that satisfy a test.
abbrev pub edit :
    (TorrentDetail → Bool)
    → ℕ
    → (TorrentDetail → TorrentDetail)
    → List TorrentDetail
    → List TorrentDetail
edit p now f [] = []
edit p now f (t ∷ ts) = (if p t then touched now (f t) else t) ∷ edit p now f ts

abbrev pub promoted : ℕ → SimState → List TorrentDetail → SimState
unfolding promote_queue
promoted now s ts = record s { torrents = promote_queue s.session now ts }

-- `torrent_start_now` numbers the queue again after each torrent.
unfoldable pub start_each_now : ℕ → List ℕ → List TorrentDetail → List TorrentDetail
unfolding start_now renumber_queue
start_each_now now [] ts = ts
start_each_now now (k ∷ ks) ts =
    start_each_now now ks (renumber_queue (at_id k (λ t. touched now (start_now t)) ts))

-- `f.prevStatus = ...` for each torrent that has its fields.
unfoldable pub note_prev : List TorrentDetail → List (ℕ × SimFields) → List (ℕ × SimFields)
note_prev [] m = m
note_prev (t ∷ ts) m = elim (lookup t.id m) [
  | none ↦ note_prev ts m
  | some f ↦ note_prev ts (insert t.id (record f { prev_status = prev_status_of t }) m)
]

abbrev pub gain : ℕ → Space → Space
gain n e = record e { size = plus_ℕ e.size n }

abbrev pub spend : ℕ → Space → Space
spend n e = record e { size = minus_ℕ e.size n }

-- The loop of `torrent_remove` over what is removed.
unfoldable pub drop_each : Bool → ℕ → List TorrentDetail → SimState → SimState
drop_each purge now [] s = s
drop_each purge now (t ∷ ts) s =
    let mount = mount_of t.download_dir s.session.download_dir in
    let s1 = record s {
      removed = s.removed ++ record { id = t.id; at = now } ∷ [];
      sim = erase t.id s.sim;
    } in
    elim (if purge then lookup mount s.space else none) [
      | none ↦ drop_each purge now ts s1
      | some e ↦
          drop_each purge now ts (record s1 { space = insert mount (gain t.have_valid e) s.space })
    ]

unfoldable pub remove : Bool → ℕ → Option Ids → SimState → SimState
unfolding drop_each renumber_queue
remove purge now ids s =
    let gone = selected ids s.torrents in
    let kept = keep (λ t. not (contains t.id (map (λ g. g.id) gone))) s.torrents in
    let s1 = drop_each purge now gone s in promoted now s1 (renumber_queue kept)

-- The accounts of a move between two mounts: two entries are the same object when their keys are equal.
unfoldable pub move_bytes : Text → Text → ℕ → List (Text × Space) → List (Text × Space)
move_bytes source target n m = elim (lookup source m) [
  | none ↦ m
  | some e ↦ elim (lookup target m) [
    | none ↦ m
    | some d ↦
        if text_eq source target then m else insert target (spend n d) (insert source (gain n e) m)
  ]
]

abbrev pub relocated : Text → TorrentDetail → TorrentDetail
relocated to t = record t { download_dir = to }

unfoldable pub move_each :
    Text → Text → List TorrentDetail → List (Text × Space) → List (Text × Space)
unfolding move_bytes
move_each base to [] m = m
move_each base to (t ∷ ts) m =
    move_each base to ts
      (move_bytes (mount_of t.download_dir base) (mount_of to base) t.have_valid m)

-- `fields.includes('pieces') || fields.includes('availability')`
abbrev pub wants_detail : Option (List Text) → Bool
wants_detail none = false
wants_detail (some fs) = contains (codes "pieces") fs || contains (codes "availability") fs

abbrev pub swarm_at : SimState → TorrentDetail → ℕ
swarm_at s t = elim (lookup t.id s.sim) [ none ↦ 3 | some f ↦ f.swarm ]

abbrev pub refresh_maps :
    SimState → (TorrentDetail → Bool) → List TorrentDetail → List TorrentDetail
refresh_maps s p [] = []
refresh_maps s p (t ∷ ts) =
    (if p t then refresh_piece_map (swarm_at s t) t else t) ∷ refresh_maps s p ts

-- The torrents that an answer lists; `now - recentWindowSec` may be negative.
abbrev pub is_listed : ℕ → SimState → Option Ids → TorrentDetail → Bool
is_listed now s (some recently_active) t = leb now (t.activity_date + s.recent_window_sec)
is_listed now s (some (these ids)) t = names_id ids t.id
is_listed now s none t = true

abbrev pub removed_since : ℕ → SimState → Option Ids → Option (List ℕ)
removed_since now s (some recently_active) =
    some (map (λ (r : Removed). r.id) (keep (λ r. leb now (r.at + s.recent_window_sec)) s.removed))
removed_since now s (some (these ids)) = none
removed_since now s none = none

-- `torrent_get`; `pick` leaves of each torrent the fields asked for.
unfoldable pub torrent_get_answer : ℕ → Option Ids → Option (List Text) → SimState → Handled
torrent_get_answer now ids fields s =
    let listed = is_listed now s ids in
    let ts = if wants_detail fields then refresh_maps s listed s.torrents else s.torrents in
    answered (torrents (keep listed ts) (removed_since now s ids)) (record s { torrents = ts })

-- The ids of `queueMove`: none unless they are a list.
abbrev pub list_of_ids : Option Ids → List ℤ
list_of_ids (some (these ids)) = ids
list_of_ids _ = []

abbrev pub naturals : List ℤ → List ℕ
naturals [] = []
naturals (pos n ∷ is) = n ∷ naturals is
naturals (negsuc n ∷ is) = naturals is

abbrev pub not_checking : Option Ids → TorrentDetail → Bool
unfolding is_checking
not_checking ids t = is_selected ids t && not (is_checking t.status)

abbrev pub done : ℕ → SimState → List TorrentDetail → Handled
done now s ts = answered empty (promoted now s ts)

abbrev pub same_torrent : TorrentDetail → TorrentDetail
same_torrent t = t
