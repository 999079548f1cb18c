-- ===== src/Methods.antt =====
-- ui/src/rpc/methods.ts: the calls of the daemon, with the name and the parameters that each sends. The arguments
-- of `setTorrent`, `setSession` and `addTorrent` are given as members.
use transmission_ui.Prelude.{Text, codes, ℕ, true, Option, none, some, List, [], ◌∷◌, ◌++◌, map}
use transmission_ui.Json.{Json, Items}
use transmission_ui.Json.{nil, cons, num, str, arr, bool}
use transmission_ui.Prelude.Int.{pos}

pub data Ids : Type 0 where
  recently_active : Ids
  these : List ℕ → Ids

pub data Direction : Type 0 where
  top up down bottom : Direction

pub data Call : Type 0 where
  get_torrents : Option Ids → Call
  get_torrent_fields : (id : ℕ) → (fields : List Text) → Call
  get_session get_stats blocklist_update : Call
  set_session : List (Text × Json) → Call
  free_space : Text → Call
  port_test : (ip_protocol : Text) → Call
  start stop verify reannounce remove : List ℕ → Call
  queue_move : Direction → List ℕ → Call
  set_location : List ℕ → Text → Call
  rename_path : ℕ → (path : Text) → (name : Text) → Call
  set_torrent : List ℕ → List (Text × Json) → Call
  add_torrent : List (Text × Json) → Call

abbrev pub direction_name : Direction → Text
direction_name top = codes "top"
direction_name up = codes "up"
direction_name down = codes "down"
direction_name bottom = codes "bottom"

abbrev pub method_name : Call → Text
method_name (get_torrents ids) = codes "torrent_get"
method_name (get_torrent_fields id fields) = codes "torrent_get"
method_name get_session = codes "session_get"
method_name (set_session params) = codes "session_set"
method_name get_stats = codes "session_stats"
method_name (free_space path) = codes "free_space"
method_name (port_test ip) = codes "port_test"
method_name blocklist_update = codes "blocklist_update"
method_name (start ids) = codes "torrent_start"
method_name (stop ids) = codes "torrent_stop"
method_name (verify ids) = codes "torrent_verify"
method_name (reannounce ids) = codes "torrent_reannounce"
method_name (remove ids) = codes "torrent_remove"
method_name (queue_move to ids) = codes "queue_move_" ++ direction_name to
method_name (set_location ids to) = codes "torrent_set_location"
method_name (rename_path id path name) = codes "torrent_rename_path"
method_name (set_torrent ids args) = codes "torrent_set"
method_name (add_torrent args) = codes "torrent_add"

abbrev pub summary_fields : List Text
summary_fields =
    codes "id"
    ∷ codes "name"
    ∷ codes "status"
    ∷ codes "error"
    ∷ codes "error_string"
    ∷ codes "percent_done"
    ∷ codes "size_when_done"
    ∷ codes "total_size"
    ∷ codes "left_until_done"
    ∷ codes "rate_download"
    ∷ codes "rate_upload"
    ∷ codes "upload_ratio"
    ∷ codes "uploaded_ever"
    ∷ codes "eta"
    ∷ codes "peers_connected"
    ∷ codes "peers_sending_to_us"
    ∷ codes "peers_getting_from_us"
    ∷ codes "labels"
    ∷ codes "download_dir"
    ∷ codes "is_finished"
    ∷ codes "queue_position"
    ∷ codes "added_date"
    ∷ codes "activity_date"
    ∷ codes "done_date"
    ∷ codes "recheck_progress"
    ∷ codes "metadata_percent_complete"
    ∷ codes "tracker_stats"
    ∷ codes "bandwidth_priority"
    ∷ codes "hash_string"
    ∷ codes "magnet_link"
    ∷ []

abbrev pub items : List Json → Items
items [] = nil
items (j ∷ js) = cons j (items js)

abbrev pub id_list : List ℕ → Json
id_list ids = arr (items (map (λ k. num (pos k)) ids))

abbrev text_list : List Text → Json
text_list ts = arr (items (map str ts))

-- `{ ids }`, with what follows it.
abbrev with_ids : List ℕ → List (Text × Json) → List (Text × Json)
with_ids ids rest = (codes "ids", id_list ids) ∷ rest

abbrev if_ids : Option Ids → List (Text × Json)
if_ids none = []
if_ids (some recently_active) = (codes "ids", str (codes "recently_active")) ∷ []
if_ids (some (these ids)) = with_ids ids []

unfoldable pub params : Call → List (Text × Json)
params (get_torrents ids) = (codes "fields", text_list summary_fields) ∷ if_ids ids
params (get_torrent_fields id fields) =
    (codes "fields", text_list fields) ∷ (codes "ids", id_list (id ∷ [])) ∷ []
params (set_session given) = given
params (free_space path) = (codes "path", str path) ∷ []
params (port_test ip) = (codes "ip_protocol", str ip) ∷ []
params (start ids) = with_ids ids []
params (stop ids) = with_ids ids []
params (verify ids) = with_ids ids []
params (reannounce ids) = with_ids ids []
params (remove ids) = with_ids ids ((codes "delete_local_data", bool true) ∷ [])
params (queue_move to ids) = with_ids ids []
params (set_location ids to) =
    with_ids ids ((codes "location", str to) ∷ (codes "move", bool true) ∷ [])
params (rename_path id path name) =
    with_ids (id ∷ []) ((codes "path", str path) ∷ (codes "name", str name) ∷ [])
params (set_torrent ids args) = with_ids ids args
params (add_torrent args) = args
params _ = []
