-- ===== src/Store/Detail.antt =====
-- The inspector's payload in ui/src/state/store.ts: `refreshDetail` sends a request, and merges the
-- answer if the user still looks at that torrent.
use transmission_ui.Prelude.{
  ℕ, ltb, ◌==◌, Bool, false, not, ◌||◌, List, [], ◌∷◌, ◌++◌, Option, none, some, Text, codes,
  if◌then◌else◌, is_id,
}
use transmission_ui.Prelude.Keyed.{nat_eq, text_eq_inst, lookup, insert}
use transmission_ui.Json.{Json}
use transmission_ui.Types.{TorrentSummary, whole}
use transmission_ui.Store.{
  Snapshot, World, Extra, InspectorTab, overview, files, peers, trackers_tab, DetailRequest,
}

abbrev pub extra_fields : List Text
extra_fields =
    codes "id"
    ∷ codes "torrent_file"
    ∷ codes "comment"
    ∷ codes "creator"
    ∷ codes "date_created"
    ∷ codes "is_private"
    ∷ codes "piece_count"
    ∷ codes "piece_size"
    ∷ codes "pieces"
    ∷ codes "availability"
    ∷ codes "have_valid"
    ∷ codes "have_unchecked"
    ∷ codes "corrupt_ever"
    ∷ codes "downloaded_ever"
    ∷ codes "seconds_downloading"
    ∷ codes "seconds_seeding"
    ∷ codes "peers_from"
    ∷ codes "seed_ratio_limit"
    ∷ codes "seed_ratio_mode"
    ∷ codes "seed_idle_limit"
    ∷ codes "seed_idle_mode"
    ∷ codes "honors_session_limits"
    ∷ codes "download_limit"
    ∷ codes "download_limited"
    ∷ codes "upload_limit"
    ∷ codes "upload_limited"
    ∷ codes "peer_limit"
    ∷ codes "sequential_download"
    ∷ codes "sequential_download_from_piece"
    ∷ codes "files"
    ∷ codes "file_stats"
    ∷ codes "peers"
    ∷ codes "tracker_list"
    ∷ codes "webseeds_sending_to_us"
    ∷ []

-- What each tab shows that changes between polls.
abbrev pub extra_live : InspectorTab → List Text
extra_live overview =
    codes "pieces"
    ∷ codes "availability"
    ∷ codes "have_valid"
    ∷ codes "have_unchecked"
    ∷ codes "corrupt_ever"
    ∷ codes "downloaded_ever"
    ∷ codes "seconds_downloading"
    ∷ codes "seconds_seeding"
    ∷ codes "peers_from"
    ∷ []
extra_live files = codes "file_stats" ∷ []
extra_live peers = codes "peers" ∷ []
extra_live trackers_tab = codes "peers_from" ∷ []

-- The fields that the request names.
unfoldable pub request_fields : DetailRequest → List Text
request_fields r = if r.all then extra_fields else codes "id" ∷ extra_live r.tab

-- `snap.detail?.id`
abbrev pub detail_id : Option Extra → Option ℕ
detail_id none = none
detail_id (some d) = some d.id

-- A magnet still fetching its metadata: `(byId.get(id)?.metadata_percent_complete ?? 1) < 1`.
abbrev pub fetching : Option TorrentSummary → Bool
fetching none = false
fetching (some t) = ltb t.metadata_percent_complete whole

request_for : Snapshot → Bool → ℕ → DetailRequest
request_for s full id = record {
  id = id;
  all = full || (not (is_id (detail_id s.detail) id) || fetching (lookup id s.by_id));
  tab = s.inspector_tab;
}

-- Up to the `await`.
unfoldable pub refresh_detail : Bool → World → World
unfolding request_for
refresh_detail full w = elim w.snap.focus_id [
  | none ↦ w
  | some id ↦ record w { details = w.details ++ request_for w.snap full id ∷ [] }
]

-- `{ ...a, ...b }`
abbrev pub spread : List (Text × Json) → List (Text × Json) → List (Text × Json)
spread a [] = a
spread a ((k, v) ∷ b) = spread (insert k v a) b

-- `if (snap.detail?.id === id) set({ detail: { ...snap.detail, ...d } })`
unfoldable pub merge_detail : ℕ → Extra → Option Extra → Option Extra
merge_detail id d none = none
merge_detail id d (some old) =
    if old.id == id then some (record { id = d.id; props = spread old.props d.props }) else some old

-- From the answer on: `none` stands for a failed request or a torrent that is gone.
unfoldable pub detail_arrives : DetailRequest → Option Extra → Snapshot → Snapshot
unfolding merge_detail
detail_arrives r none s = s
detail_arrives r (some d) s =
    if not (is_id s.focus_id r.id)
    then s
    else if r.all
    then record s { detail = some d }
    else record s { detail = merge_detail r.id d s.detail }
