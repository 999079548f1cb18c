-- ===== src/Types/Detail.antt =====
-- `TorrentDetail` of ui/src/rpc/types.ts: the summary's fields with those that are fetched for one torrent.
-- `queue_position` is an integer, since the simulator sets -1 for a moment; modes are the numbers 0, 1, 2.
use transmission_ui.Prelude.{ℕ, Bool, List, Text}
use transmission_ui.Prelude.Int.{ℤ}
use transmission_ui.Types.{Status, TrackerStat}

pub record TorrentFile : Type 0 where
  pub name : Text
  pub length : ℕ
  pub bytes_completed : ℕ

pub record FileStat : Type 0 where
  pub wanted : Bool
  pub priority : ℤ
  pub bytes_completed : ℕ

pub record Peer : Type 0 where
  pub address : Text
  pub client_name : Text
  pub progress : ℕ
  pub rate_to_client : ℕ
  pub rate_to_peer : ℕ
  pub flag_str : Text
  pub is_encrypted : Bool
  pub is_incoming : Bool
  pub is_downloading_from : Bool
  pub is_uploading_to : Bool
  pub is_utp : Bool
  pub port : ℕ

pub record PeersFrom : Type 0 where
  pub from_cache : ℕ
  pub from_dht : ℕ
  pub from_incoming : ℕ
  pub from_lpd : ℕ
  pub from_ltep : ℕ
  pub from_pex : ℕ
  pub from_tracker : ℕ

pub record TorrentDetail : Type 0 where
  pub id : ℕ
  pub name : Text
  pub status : Status
  pub error : ℕ
  pub error_string : Text
  pub percent_done : ℕ
  pub size_when_done : ℕ
  pub total_size : ℕ
  pub left_until_done : ℕ
  pub rate_download : ℕ
  pub rate_upload : ℕ
  pub upload_ratio : ℤ
  pub uploaded_ever : ℕ
  pub eta : ℤ
  pub peers_connected : ℕ
  pub peers_sending_to_us : ℕ
  pub peers_getting_from_us : ℕ
  pub labels : List Text
  pub download_dir : Text
  pub is_finished : Bool
  pub queue_position : ℤ
  pub added_date : ℕ
  pub activity_date : ℕ
  pub done_date : ℕ
  pub recheck_progress : ℕ
  pub metadata_percent_complete : ℕ
  pub tracker_stats : List TrackerStat
  pub bandwidth_priority : ℤ
  pub hash_string : Text
  pub magnet_link : Text
  pub torrent_file : Text
  pub comment : Text
  pub creator : Text
  pub date_created : ℕ
  pub is_private : Bool
  pub piece_count : ℕ
  pub piece_size : ℕ
  pub pieces : List ℕ
  pub availability : List ℤ
  pub have_valid : ℕ
  pub have_unchecked : ℕ
  pub corrupt_ever : ℕ
  pub downloaded_ever : ℕ
  pub seconds_downloading : ℕ
  pub seconds_seeding : ℕ
  pub peers_from : PeersFrom
  pub seed_ratio_limit : ℕ
  pub seed_ratio_mode : ℕ
  pub seed_idle_limit : ℕ
  pub seed_idle_mode : ℕ
  pub honors_session_limits : Bool
  pub download_limit : ℕ
  pub download_limited : Bool
  pub upload_limit : ℕ
  pub upload_limited : Bool
  pub peer_limit : ℕ
  pub sequential_download : Bool
  pub sequential_download_from_piece : ℕ
  pub files : List TorrentFile
  pub file_stats : List FileStat
  pub peers : List Peer
  pub tracker_list : Text
  pub webseeds_sending_to_us : ℕ
