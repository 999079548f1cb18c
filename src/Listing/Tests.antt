-- ===== src/Listing/Tests.antt =====
-- The list's derived views on concrete rows.
use transmission_ui.Prelude.{
  starts_with, length, All, Text, codes, text_eq, starts_with, ℕ, ◌≡◌, refl, false, List, [], ◌∷◌,
  map, arith,
}
use transmission_ui.Prelude.Int.{pos, negsuc}
use transmission_ui.Prelude.Split.{split, join}
use transmission_ui.Prelude.Keyed.{nat_eq, text_eq_inst, Nodup}
use transmission_ui.Prelude.Comparison.{Sign, minus, IsConsistent, minus-IsConsistent}
use transmission_ui.Types.{whole, TorrentSummary}
use transmission_ui.Types.{stopped}
use transmission_ui.Trackers.{tracker_names, name_from, tracker_name}
use transmission_ui.Trackers.Suffixes.{domains, first_name, name_from_lem}
use transmission_ui.Listing.Sort.{sort_fn}
use transmission_ui.Listing.Sort.{by_path}
use transmission_ui.Listing.Sort.Consistent.{sort_fn-IsConsistent}
use transmission_ui.Listing.Folders.{FolderNode, folder_tree}
use transmission_ui.Listing.Folders.Nodes.{rows_in, folder_tree_lem}
use transmission_ui.Listing.Labels.{LabelCount, label_counts}
use transmission_ui.Listing.Labels.Rows.{labelled, label_counts_lem}
use transmission_ui.Prelude.Int.{pos}
use transmission_ui.Listing.Health.{
  TrackerHealth, HostCount, compute_health, health_of, clock_after, down,
}
use transmission_ui.Listing.Health.Rows.{announcing, compute_health-rows}
use transmission_ui.Listing.Health.Clock.{health_of-down}
use transmission_ui.Types.{TrackerStat}
use transmission_ui.Prelude.{some, true, false}
use transmission_ui.Listing.Status.{classify_announce}

abbrev row : ℕ → Text → List Text → TorrentSummary
row id dir labels = record {
  id = id;
  name = codes "t";
  status = stopped;
  error = 0;
  error_string = [];
  percent_done = 0;
  size_when_done = 0;
  total_size = 0;
  left_until_done = 0;
  rate_download = 0;
  rate_upload = 0;
  upload_ratio = negsuc 0;
  uploaded_ever = 0;
  eta = negsuc 0;
  peers_connected = 0;
  peers_sending_to_us = 0;
  peers_getting_from_us = 0;
  labels = labels;
  download_dir = dir;
  is_finished = false;
  queue_position = 0;
  added_date = 0;
  activity_date = 0;
  done_date = 0;
  recheck_progress = 0;
  metadata_percent_complete = whole;
  tracker_stats = [];
  bandwidth_priority = pos 0;
  hash_string = [];
  magnet_link = [];
}

abbrev rows : List TorrentSummary
rows =
    row 1 (codes "/d/a/x") (codes "l" ∷ [])
    ∷ row 2 (codes "/d/a") (codes "l" ∷ codes "m" ∷ [])
    ∷ row 3 (codes "/d") []
    ∷ []

abbrev same_host : Text → Text
same_host u = u

-- A collation that goes by length.
abbrev by_length : Text → Text → Sign
by_length s t = minus (length s) (length t)

folders_of_rows : map (λ n. FolderNode.count n) (folder_tree rows (codes "/d")) ≡ 2 ∷ 1 ∷ []
unfolding folder_tree text_eq split starts_with join
folders_of_rows = refl

folder_tree_example :
    Nodup (map (λ n. FolderNode.path n) (folder_tree rows (codes "/d")))
    × All
        (λ n. FolderNode.count n ≡ length (rows_in same_host (codes "/d") rows (FolderNode.path n)))
        (folder_tree rows (codes "/d"))
folder_tree_example = folder_tree_lem same_host (codes "/d") rows

labels_of_rows : map (λ e. LabelCount.count e) (label_counts by_length rows) ≡ 2 ∷ 1 ∷ []
unfolding label_counts text_eq
labels_of_rows = refl

label_counts_example :
    All
      (λ e. LabelCount.count e ≡ length (labelled same_host [] rows (LabelCount.label e)))
      (label_counts by_length rows)
unfolding text_eq
label_counts_example =
    label_counts_lem same_host by_length [] rows ((refl, tt), ((refl, (refl, tt)), (tt, tt)))

sort_fn-IsConsistent_example : IsConsistent (sort_fn same_host by_length by_path false (codes "/d"))
sort_fn-IsConsistent_example =
    sort_fn-IsConsistent by_length (minus-IsConsistent length) same_host by_path false (codes "/d")

known_subdomain : tracker_name (codes "t.Debian.org") ≡ codes "Debian"
unfolding tracker_name text_eq
known_subdomain = refl

name_from_example :
    name_from tracker_names 20 (codes "t.debian.org")
    ≡ first_name tracker_names (domains (codes "t.debian.org"))
name_from_example = name_from_lem tracker_names 20 (codes "t.debian.org") (omega arith)

abbrev tracker : Text → TrackerStat
tracker announce = record {
  id = 0;
  announce = announce;
  host = announce;
  tier = 0;
  announce_state = 1;
  has_announced = true;
  last_announce_succeeded = false;
  last_announce_result = codes "timed out";
  last_announce_time = 100;
  last_announce_peer_count = 0;
  next_announce_time = 0;
  has_scraped = false;
  last_scrape_succeeded = false;
  last_scrape_time = 0;
  seeder_count = 0;
  leecher_count = 0;
  download_count = 0;
  downloader_count = 0;
  is_backup = false;
}

abbrev tracked : List TorrentSummary
tracked =
    record (row 4 (codes "/d") []) { tracker_stats = tracker (codes "x") ∷ [] }
    ∷ record (row 5 (codes "/d") []) {
      tracker_stats = tracker (codes "x") ∷ tracker (codes "y") ∷ [];
    }
    ∷ []

health_of_tracked :
    map (λ h. TrackerHealth.state h) (compute_health same_host 700_000 by_length tracked []).0
    ≡ down ∷ down ∷ []
unfolding compute_health text_eq starts_with classify_announce
health_of_tracked = refl

compute_health-rows_example :
    All
      (λ h. TrackerHealth.count h ≡ length (announcing same_host [] tracked (TrackerHealth.host h)))
      (compute_health same_host 700_000 by_length tracked []).0
compute_health-rows_example = compute_health-rows same_host 700_000 by_length [] tracked []

abbrev failing_once : ℕ → HostCount
failing_once since = record {
  count = 1;
  announced = 1;
  failing = 1;
  rejected_ = 0;
  torrent_level_ = 0;
  since = some since;
  result = [];
}

health_of-down_example :
    TrackerHealth.state (
      health_of 800_000 (codes "x") (failing_once 790_000) (
        clock_after
          (codes "x")
          (failing_once 790_000)
          (clock_after (codes "x") (failing_once 100_000) [])))
    ≡ down
unfolding health_of text_eq
health_of-down_example =
    health_of-down (codes "x") (failing_once 100_000) (failing_once 790_000) [] 700_000 800_000
      (omega arith) refl refl refl refl
