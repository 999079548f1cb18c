-- ===== src/Sim/Edit.antt =====
-- What the requests of ui/sim/handlers.ts write to one torrent. Assigning the members of a request to a
-- torrent is a function of it. `encodeURIComponent` and the host of an address are parameters.
pub mod Bytes
use transmission_ui.Prelude.{
  ltb, leb, ◌==◌, if◌then◌else◌, length, drop, find, Text, codes, text_eq, is_empty, ℕ, zero, suc,
  ◌+◌, Bool, true, false, ◌&&◌, Option, none, some, List, [], ◌∷◌, ◌++◌, map,
}
use transmission_ui.Prelude.Int.{ℤ, pos, negsuc}
use transmission_ui.Prelude.Spaces.{trim}
use transmission_ui.Prelude.Split.{split, join}
use transmission_ui.Paths.{slash}
use transmission_ui.Types.{whole, Status, status_eq, TrackerStat, Session}
use transmission_ui.Types.{stopped, check_wait, download_wait, download, seed_wait, seed}
use transmission_ui.Types.Detail.{TorrentFile, FileStat, TorrentDetail}
use transmission_ui.Sim.Derive.{is_checking, wanted_size, wanted_have, reconcile}
use transmission_ui.Sim.Goals.{seed_goal, eta_of}

abbrev pub touched : ℕ → TorrentDetail → TorrentDetail
touched now t = record t { activity_date = now }

unfoldable pub is_done : TorrentDetail → Bool
is_done t = leb whole t.percent_done && leb whole t.metadata_percent_complete

abbrev cleared : TorrentDetail → TorrentDetail
cleared t = record t { error = 0; error_string = []; is_finished = false }

-- `torrent_start`
unfoldable pub start : TorrentDetail → TorrentDetail
unfolding is_done
start t = record (cleared t) { status = if is_done t then seed_wait else download_wait }

-- `torrent_start_now`, before the queue is numbered again.
unfoldable pub start_now : TorrentDetail → TorrentDetail
unfolding is_done
start_now t = record (cleared t) {
  status = if is_done t then seed else download;
  queue_position = negsuc 0;
}

-- Stopping cancels a verify: the unchecked bytes go back.
unfoldable pub fold_back : TorrentDetail → TorrentDetail
unfolding reconcile
fold_back t = reconcile (record t {
  have_valid = t.have_valid + t.have_unchecked;
  have_unchecked = 0;
  recheck_progress = 0;
})

unfoldable pub stop : TorrentDetail → TorrentDetail
unfolding fold_back is_checking
stop t = record (if is_checking t.status then fold_back t else t) {
  status = stopped;
  rate_download = 0;
  rate_upload = 0;
  eta = negsuc 0;
}

unfoldable pub verify : TorrentDetail → TorrentDetail
verify t = record t {
  have_unchecked = t.have_valid;
  have_valid = 0;
  recheck_progress = 0;
  status = check_wait;
}

-- The status to restore when the verify ends.
abbrev pub prev_status_of : TorrentDetail → Status
prev_status_of t =
    if status_eq t.status stopped
    then stopped
    else if leb whole t.percent_done
    then seed
    else download

unfoldable pub reannounce : ℕ → TorrentDetail → TorrentDetail
reannounce now t = record t {
  tracker_stats = map (λ (s : TrackerStat). record s { next_announce_time = now }) t.tracker_stats;
}

-- `for (const i of is) if (t.file_stats[i]) ...`
abbrev pub mark_at : (FileStat → FileStat) → ℕ → List FileStat → List FileStat
mark_at f i [] = []
mark_at f zero (s ∷ ss) = f s ∷ ss
mark_at f (suc i) (s ∷ ss) = s ∷ mark_at f i ss

abbrev pub mark_each : (FileStat → FileStat) → List ℕ → List FileStat → List FileStat
mark_each f [] ss = ss
mark_each f (i ∷ is) ss = mark_each f is (mark_at f i ss)

abbrev pub want : Bool → FileStat → FileStat
want b s = record s { wanted = b }

abbrev pub ranked : ℤ → FileStat → FileStat
ranked p s = record s { priority = p }

-- The lists of files that `torrent_set` takes; a missing one is empty.
pub record FileMarks : Type 0 where
  pub files_wanted : List ℕ
  pub files_unwanted : List ℕ
  pub priority_high : List ℕ
  pub priority_normal : List ℕ
  pub priority_low : List ℕ

unfoldable pub marked : FileMarks → List FileStat → List FileStat
marked m ss =
    let wanted =
      mark_each (want false) m.files_unwanted (mark_each (want true) m.files_wanted ss) in
    let high =
      mark_each (ranked (pos 0)) m.priority_normal
        (mark_each (ranked (pos 1)) m.priority_high wanted) in
    mark_each (ranked (negsuc 0)) m.priority_low high

abbrev pub line_feed : ℕ
line_feed = 10

-- The totals, from the file table.
unfoldable pub retotal : Session → TorrentDetail → TorrentDetail
unfolding wanted_size wanted_have reconcile eta_of seed_goal
retotal s t =
    let u = reconcile (record t { size_when_done = wanted_size t; have_valid = wanted_have t }) in
    record u { eta = eta_of u (seed_goal s u) }

-- `path.slice(0, path.lastIndexOf('/') + 1)`
abbrev pub up_to_slash : Text → Text
up_to_slash [] = []
up_to_slash (c ∷ s) =
    let rest = up_to_slash s in
    if is_empty rest then (if c == slash then c ∷ [] else []) else c ∷ rest

abbrev rename_file : Text → Text → TorrentFile → TorrentFile
rename_file path name f = record f {
  name = if text_eq f.name path then name else name ++ drop (length path) f.name;
}

abbrev rename_first : Text → Text → List TorrentFile → List TorrentFile
rename_first path name [] = []
rename_first path name (f ∷ fs) =
    let rest = rename_first path name fs in
    if text_eq f.name path then record f { name = up_to_slash path ++ name } ∷ fs else f ∷ rest

module _ (encode : Text → Text) (host_of : Text → Text) where
  abbrev tr_params : List TrackerStat → Text
  tr_params [] = []
  tr_params (s ∷ ss) = (codes "&tr=" ++ encode s.announce) ++ tr_params ss

  unfoldable pub magnet_of : Text → Text → List TrackerStat → Text
  magnet_of hash name stats =
      ((codes "magnet:?xt=urn:btih:" ++ hash) ++ (codes "&dn=" ++ encode name)) ++ tr_params stats

  abbrev new_stat : ℕ → ℕ → Text → TrackerStat
  new_stat id tier line = record {
    id = id;
    announce = line;
    host = host_of line;
    tier = tier;
    announce_state = 0;
    has_announced = false;
    last_announce_succeeded = false;
    last_announce_result = [];
    last_announce_time = 0;
    last_announce_peer_count = 0;
    next_announce_time = 0;
    has_scraped = false;
    last_scrape_succeeded = false;
    last_scrape_time = 0;
    seeder_count = 0;
    leecher_count = 0;
    download_count = 0;
    downloader_count = 0;
    is_backup = ltb 0 tier;
  }

  abbrev stat_for : List TrackerStat → ℕ → ℕ → Text → TrackerStat
  stat_for old id tier line = elim (find (λ s. text_eq s.announce line) old) [
    | some s ↦ record s { id = id; tier = tier }
    | none ↦ new_stat id tier line
  ]

  -- The lines of `tracker_list`; `id` counts the trackers so far, and a blank line after one begins a tier.
  unfoldable pub tracker_lines : List TrackerStat → ℕ → ℕ → List Text → List TrackerStat
  tracker_lines old id tier [] = []
  tracker_lines old id tier (raw ∷ lines) =
      let line = trim raw in
      let blank = tracker_lines old id (if ltb 0 id then tier + 1 else tier) lines in
      let more = tracker_lines old (id + 1) tier lines in
      if is_empty line then blank else stat_for old id tier line ∷ more

  unfoldable pub set_trackers : Text → TorrentDetail → TorrentDetail
  unfolding tracker_lines magnet_of
  set_trackers list t =
      let stats = tracker_lines t.tracker_stats 0 0 (split line_feed list) in
      record t {
        tracker_stats = stats;
        tracker_list = join line_feed (map (λ (s : TrackerStat). s.announce) stats);
        magnet_link = magnet_of t.hash_string t.name stats;
      }

  abbrev if_trackers : Option Text → TorrentDetail → TorrentDetail
  unfolding set_trackers
  if_trackers none t = t
  if_trackers (some list) t = set_trackers list t

  -- `torrent_set`
  unfoldable pub set :
      Session
      → FileMarks
      → (TorrentDetail → TorrentDetail)
      → Option Text
      → TorrentDetail
      → TorrentDetail
  unfolding marked retotal set_trackers
  set s m assign list t =
      retotal s (if_trackers list (assign (record t { file_stats = marked m t.file_stats })))

  -- `torrent_rename_path`
  unfoldable pub rename : Text → Text → TorrentDetail → TorrentDetail
  unfolding magnet_of
  rename path name t =
      if text_eq path t.name
      then record t {
        files = map (rename_file path name) t.files;
        name = name;
        magnet_link = magnet_of t.hash_string name t.tracker_stats;
      }
      else record t { files = rename_first path name t.files }
