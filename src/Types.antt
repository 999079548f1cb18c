-- ===== src/Types.antt =====
-- ui/src/rpc/types.ts: the shapes that the daemon returns. Counts, sizes, rates and times are natural
-- numbers. A fraction is in millionths (`whole` stands for 1), and so is `upload_ratio`, whose
-- negative sentinels -1 and -2 are not scaled; `eta` has the same.
pub mod Detail
use transmission_ui.Prelude.{ℕ, ◌==◌, Bool, List, Text}
use transmission_ui.Prelude.Int.{ℤ}

abbrev pub whole : ℕ
whole = 1_000_000

pub data Status : Type 0 where
  stopped check_wait check download_wait download seed_wait seed : Status

-- The number that the enum gives it.
abbrev pub status_code : Status → ℕ
status_code stopped = 0
status_code check_wait = 1
status_code check = 2
status_code download_wait = 3
status_code download = 4
status_code seed_wait = 5
status_code seed = 6

-- `a === b` of two statuses.
abbrev pub status_eq : Status → Status → Bool
status_eq a b = status_code a == status_code b

pub record TrackerStat : Type 0 where
  pub id : ℕ
  pub announce : Text
  pub host : Text
  pub tier : ℕ
  pub announce_state : ℕ
  pub has_announced : Bool
  pub last_announce_succeeded : Bool
  pub last_announce_result : Text
  pub last_announce_time : ℕ
  pub last_announce_peer_count : ℕ
  pub next_announce_time : ℕ
  pub has_scraped : Bool
  pub last_scrape_succeeded : Bool
  pub last_scrape_time : ℕ
  pub seeder_count : ℕ
  pub leecher_count : ℕ
  pub download_count : ℕ
  pub downloader_count : ℕ
  pub is_backup : Bool

pub record TorrentSummary : Type 0 where
  pub id : ℕ
  pub name : Text
  pub status : Status
  pub error : ℕ
  pub error_string : Text
  pub percent_done : ℕ
  pub size_when_done : ℕ
  pub total_size : ℕ
  pub left_until_done : ℕ
  pub rate_download : ℕ
  pub rate_upload : ℕ
  pub upload_ratio : ℤ
  pub uploaded_ever : ℕ
  pub eta : ℤ
  pub peers_connected : ℕ
  pub peers_sending_to_us : ℕ
  pub peers_getting_from_us : ℕ
  pub labels : List Text
  pub download_dir : Text
  pub is_finished : Bool
  pub queue_position : ℕ
  pub added_date : ℕ
  pub activity_date : ℕ
  pub done_date : ℕ
  pub recheck_progress : ℕ
  pub metadata_percent_complete : ℕ
  pub tracker_stats : List TrackerStat
  pub bandwidth_priority : ℤ
  pub hash_string : Text
  pub magnet_link : Text

pub data Transport : Type 0 where
  tcp utp : Transport

pub data Encryption : Type 0 where
  required preferred allowed : Encryption

pub record Session : Type 0 where
  pub version : Text
  pub rpc_version_semver : Text
  pub download_dir : Text
  pub alt_speed_enabled : Bool
  pub alt_speed_down : ℕ
  pub alt_speed_up : ℕ
  pub alt_speed_time_enabled : Bool
  pub alt_speed_time_begin : ℕ
  pub alt_speed_time_end : ℕ
  pub alt_speed_time_day : ℕ
  pub speed_limit_down : ℕ
  pub speed_limit_down_enabled : Bool
  pub speed_limit_up : ℕ
  pub speed_limit_up_enabled : Bool
  pub incomplete_dir : Text
  pub incomplete_dir_enabled : Bool
  pub rename_partial_files : Bool
  pub start_added_torrents : Bool
  pub trash_original_torrent_files : Bool
  pub script_torrent_done_enabled : Bool
  pub script_torrent_done_filename : Text
  pub script_torrent_done_seeding_enabled : Bool
  pub script_torrent_done_seeding_filename : Text
  pub cache_size_mib : ℕ
  pub seed_ratio_limit : ℕ
  pub seed_ratio_limited : Bool
  pub idle_seeding_limit : ℕ
  pub idle_seeding_limit_enabled : Bool
  pub sequential_download : Bool
  pub download_queue_size : ℕ
  pub download_queue_enabled : Bool
  pub seed_queue_size : ℕ
  pub seed_queue_enabled : Bool
  pub queue_stalled_minutes : ℕ
  pub queue_stalled_enabled : Bool
  pub peer_port : ℕ
  pub peer_port_random_on_start : Bool
  pub port_forwarding_enabled : Bool
  pub dht_enabled : Bool
  pub pex_enabled : Bool
  pub lpd_enabled : Bool
  pub preferred_transports : List Transport
  pub peer_limit_per_torrent : ℕ
  pub peer_limit_global : ℕ
  pub encryption : Encryption
  pub blocklist_enabled : Bool
  pub blocklist_url : Text
  pub blocklist_size : ℕ

pub record StatsBlock : Type 0 where
  pub uploaded_bytes : ℕ
  pub downloaded_bytes : ℕ
  pub files_added : ℕ
  pub session_count : ℕ
  pub seconds_active : ℕ

pub record SessionStats : Type 0 where
  pub active_torrent_count : ℕ
  pub paused_torrent_count : ℕ
  pub torrent_count : ℕ
  pub download_speed : ℕ
  pub upload_speed : ℕ
  pub cumulative_stats : StatsBlock
  pub current_stats : StatsBlock

pub record FreeSpace : Type 0 where
  pub path : Text
  pub size_bytes : ℕ
  pub total_size : ℕ
