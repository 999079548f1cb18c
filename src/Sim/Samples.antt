-- ===== src/Sim/Samples.antt =====
-- A small world of the simulator, for the tests: two torrents that wait in a queue of one.
use Prim.Native.String.{String}
use transmission_ui.Prelude.{◌*◌, ◌/◌, Text, codes, ℕ, true, false, none, some, List, [], ◌∷◌}
use transmission_ui.Prelude.Int.{pos, negsuc}
use transmission_ui.Prelude.Keyed.{nat_eq, text_eq_inst}
use transmission_ui.Json.{num}
use transmission_ui.Types.{whole, Status, TrackerStat, Session, StatsBlock}
use transmission_ui.Types.{download_wait, download, preferred}
use transmission_ui.Types.Detail.{TorrentFile, FileStat, PeersFrom, TorrentDetail}
use transmission_ui.Sim.{SimFields, Space, SimState}
use transmission_ui.Sim.Edit.{FileMarks}
use transmission_ui.Sim.Requests.{Args}
use transmission_ui.Sim.Adding.Names.{AddArgs, NewTorrentOptions, Parts}
use transmission_ui.Prelude.{drop}
use transmission_ui.Sim.Handlers.{base_dir}
use transmission_ui.Sim.Rates.{Speeds}
use transmission_ui.Sim.Advance.{Amounts}
use transmission_ui.Sim.Announce.{fine, TrackerDef}

abbrev pub file : ℕ → ℕ → TorrentFile
file size done = record { name = codes "f"; length = size; bytes_completed = done }

abbrev pub stat : ℕ → FileStat
stat done = record { wanted = true; priority = pos 0; bytes_completed = done }

abbrev pub tracker : ℕ → TrackerStat
tracker tier = record {
  id = tier;
  announce = codes "udp://a";
  host = codes "a";
  tier = tier;
  announce_state = 0;
  has_announced = false;
  last_announce_succeeded = false;
  last_announce_result = [];
  last_announce_time = 0;
  last_announce_peer_count = 0;
  next_announce_time = 0;
  has_scraped = false;
  last_scrape_succeeded = false;
  last_scrape_time = 0;
  seeder_count = 0;
  leecher_count = 0;
  download_count = 0;
  downloader_count = 0;
  is_backup = false;
}

abbrev pub no_peers : PeersFrom
no_peers = record {
  from_cache = 0;
  from_dht = 0;
  from_incoming = 0;
  from_lpd = 0;
  from_ltep = 0;
  from_pex = 0;
  from_tracker = 0;
}

abbrev pub torrent : ℕ → String → Status → TorrentDetail
torrent id hash status = record {
  id = id;
  name = codes "t";
  status = status;
  error = 0;
  error_string = [];
  percent_done = 400_000;
  size_when_done = 100;
  total_size = 100;
  left_until_done = 60;
  rate_download = 0;
  rate_upload = 0;
  upload_ratio = negsuc 0;
  uploaded_ever = 0;
  eta = negsuc 0;
  peers_connected = 0;
  peers_sending_to_us = 0;
  peers_getting_from_us = 0;
  labels = [];
  download_dir = codes "/data/torrents/iso";
  is_finished = false;
  queue_position = pos id;
  added_date = 0;
  activity_date = 3;
  done_date = 0;
  recheck_progress = 0;
  metadata_percent_complete = whole;
  tracker_stats = tracker 0 ∷ tracker 1 ∷ [];
  bandwidth_priority = pos 0;
  hash_string = codes hash;
  magnet_link = [];
  torrent_file = [];
  comment = [];
  creator = [];
  date_created = 0;
  is_private = false;
  piece_count = 20;
  piece_size = 0;
  pieces = [];
  availability = [];
  have_valid = 40;
  have_unchecked = 0;
  corrupt_ever = 0;
  downloaded_ever = 0;
  seconds_downloading = 0;
  seconds_seeding = 0;
  peers_from = no_peers;
  seed_ratio_limit = 0;
  seed_ratio_mode = 0;
  seed_idle_limit = 0;
  seed_idle_mode = 0;
  honors_session_limits = true;
  download_limit = 0;
  download_limited = false;
  upload_limit = 0;
  upload_limited = false;
  peer_limit = 0;
  sequential_download = false;
  sequential_download_from_piece = 0;
  files = file 60 40 ∷ file 40 0 ∷ [];
  file_stats = stat 40 ∷ stat 0 ∷ [];
  peers = [];
  tracker_list = [];
  webseeds_sending_to_us = 0;
}

abbrev pub settings : Session
settings = record {
  version = [];
  rpc_version_semver = [];
  download_dir = codes "/data/torrents";
  alt_speed_enabled = false;
  alt_speed_down = 0;
  alt_speed_up = 0;
  alt_speed_time_enabled = false;
  alt_speed_time_begin = 0;
  alt_speed_time_end = 0;
  alt_speed_time_day = 0;
  speed_limit_down = 1;
  speed_limit_down_enabled = true;
  speed_limit_up = 0;
  speed_limit_up_enabled = false;
  incomplete_dir = [];
  incomplete_dir_enabled = false;
  rename_partial_files = false;
  start_added_torrents = false;
  trash_original_torrent_files = false;
  script_torrent_done_enabled = false;
  script_torrent_done_filename = [];
  script_torrent_done_seeding_enabled = false;
  script_torrent_done_seeding_filename = [];
  cache_size_mib = 0;
  seed_ratio_limit = 0;
  seed_ratio_limited = false;
  idle_seeding_limit = 0;
  idle_seeding_limit_enabled = false;
  sequential_download = false;
  download_queue_size = 1;
  download_queue_enabled = true;
  seed_queue_size = 1;
  seed_queue_enabled = true;
  queue_stalled_minutes = 0;
  queue_stalled_enabled = false;
  peer_port = 0;
  peer_port_random_on_start = false;
  port_forwarding_enabled = false;
  dht_enabled = false;
  pex_enabled = false;
  lpd_enabled = false;
  preferred_transports = [];
  peer_limit_per_torrent = 0;
  peer_limit_global = 0;
  encryption = preferred;
  blocklist_enabled = false;
  blocklist_url = [];
  blocklist_size = 0;
}

abbrev pub no_stats : StatsBlock
no_stats = record {
  uploaded_bytes = 0;
  downloaded_bytes = 0;
  files_added = 0;
  session_count = 1;
  seconds_active = 0;
}

abbrev pub first : TorrentDetail
first = torrent 1 "aa" download_wait

abbrev pub second : TorrentDetail
second = torrent 2 "bb" download_wait

abbrev pub two : List TorrentDetail
two = first ∷ second ∷ []

abbrev pub fields_now : SimFields
fields_now = record {
  base_down = 900;
  base_up = 0;
  check_secs = 20;
  prev_status = download;
  prev_down = 0;
  prev_up = 0;
  stall_until = 0;
  swarm = 3;
  rand = 7;
}

abbrev pub base_space : Space
base_space = record { size = pos 412; total = 1_800 }

abbrev pub world : SimState
world = record {
  torrents = two;
  session = settings;
  sim = (1, fields_now) ∷ (2, fields_now) ∷ [];
  removed = [];
  tracker_down = [];
  tracker_next = [];
  space = (base_dir, base_space) ∷ [];
  cur = no_stats;
  cum = no_stats;
  port_open = true;
  next_id = 3;
  recent_window_sec = 60;
  speed = 1;
  last_tick_ms = 0;
  rand = 1;
}

abbrev pub marks : FileMarks
marks = record {
  files_wanted = [];
  files_unwanted = [];
  priority_high = [];
  priority_normal = [];
  priority_low = [];
}

-- A magnet link with its query.
abbrev pub magnet_args : AddArgs
magnet_args = record {
  filename = some (codes "magnet:?xt=urn:btih:00112233445566778899AABBCCDDEEFF00112233");
  metainfo = none;
  download_dir = none;
  labels = [];
  bandwidth_priority = pos 0;
  paused = false;
}

abbrev pub args : Args
args = record {
  ids = some (num (pos 2));
  session = λ s. s;
  torrent = λ t. t;
  marks = marks;
  tracker_list = none;
  fields = none;
  path = none;
  name = none;
  location = none;
  keeps_files = false;
  delete_local_data = true;
  adding = magnet_args;
}

abbrev pub plain : Text → Text
plain s = s

abbrev pub made : ℕ → Text → Text → Text → ℕ → NewTorrentOptions → TorrentDetail
made id name hash dir now options = record (torrent id "" download) {
  hash_string = hash;
  name = name;
}

abbrev pub query_of : Text → List (Text × Text)
query_of s = (codes "xt", drop 3 s) ∷ []

abbrev pub parts : Parts
parts = record {
  query_of = query_of;
  sha1 = plain;
  parse = λ s. record { name = s; size = none; file_count = none };
  make = made;
}

abbrev pub rates : Speeds
rates = record { down = 900; up = 300 }

abbrev pub amounts : Amounts
amounts = record {
  down_bytes = 90;
  up_bytes = 30;
  checked = 0;
  fetched = 0;
  seconds = 1;
  stall_chance = 0;
  recheck_chance = 0;
}

abbrev pub running : TorrentDetail
running = record first { status = download }

abbrev pub defs : List TrackerDef
defs = record { announce = codes "udp://a"; mood = fine } ∷ []

abbrev pub both_ids : List ℕ
both_ids = 1 ∷ 2 ∷ []

abbrev pub exact : ℕ → ℕ → ℕ → ℕ
exact rate cap sum = rate * cap / sum
