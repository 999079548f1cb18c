-- ===== src/Listing/Status.antt =====
-- The status, the trackers and the swarm of a row, of ui/src/lib/model.ts. Lower case is that of ASCII;
-- the regular expressions are written out as searches. The host of an announce URL is a parameter.
use transmission_ui.Prelude.{
  ltb, ◌==◌, if◌then◌else◌, drop, keep, any, Text, codes, text_eq, starts_with, ℕ, max, Bool, true,
  false, not, ◌&&◌, ◌||◌, List, [], ◌∷◌,
}
use transmission_ui.Types.{
  whole, stopped, check_wait, check, download_wait, download, seed_wait, seed, status_eq,
  TrackerStat, TorrentSummary,
}
use transmission_ui.Trackers.{lower}

pub data ChipKind : Type 0 where
  dl seeding wait stop err : ChipKind

pub record StatusView : Type 0 where
  pub kind : ChipKind
  pub bar : Text
  pub label : Text

unfoldable pub status_view : TorrentSummary → StatusView
status_view t =
    if not (t.error == 0)
    then record { kind = err; bar = codes "err"; label = codes "Error" }
    else elim t.status [
      | download ↦
          if ltb t.metadata_percent_complete whole
          then record { kind = dl; bar = codes "striped"; label = codes "Fetching metadata" }
          else record { kind = dl; bar = []; label = codes "Downloading" }
      | seed ↦ record { kind = seeding; bar = codes "seed"; label = codes "Seeding" }
      | seed_wait ↦ record {
        kind = wait;
        bar = codes "wait striped";
        label = codes "Queued to seed";
      }
      | download_wait ↦ record { kind = wait; bar = codes "wait striped"; label = codes "Queued" }
      | check ↦ record { kind = wait; bar = codes "wait striped"; label = codes "Verifying" }
      | check_wait ↦ record {
        kind = wait;
        bar = codes "wait striped";
        label = codes "Queued to verify";
      }
      | stopped ↦ record { kind = stop; bar = codes "stop"; label = codes "Stopped" }
    ]

abbrev pub is_active : TorrentSummary → Bool
is_active t = ltb 0 t.rate_download || ltb 0 t.rate_upload

abbrev pub is_checking : TorrentSummary → Bool
is_checking t = status_eq t.status check || status_eq t.status check_wait

pub data TrackerFailure : Type 0 where
  fine tracker_level torrent_level client_rejected : TrackerFailure

-- Some suffix of the text passes; and the same on one line, as `.*` reads.
abbrev search : (Text → Bool) → Text → Bool
search f [] = f []
search f (c ∷ s) = f (c ∷ s) || search f s

abbrev pub is_line_end : ℕ → Bool
is_line_end c = (c == 10) || (c == 13) || (c == 8232) || (c == 8233)

abbrev search_line : (Text → Bool) → Text → Bool
search_line f [] = f []
search_line f (c ∷ s) = f (c ∷ s) || (not (is_line_end c) && search_line f s)

-- `.?agent` at the start.
abbrev agent : Text → Bool
agent [] = false
agent (c ∷ s) =
    starts_with (c ∷ s) (codes "agent") || (not (is_line_end c) && starts_with s (codes "agent"))

unfoldable pub says_rejected : Text → Bool
says_rejected r =
    search
      (λ s.
        starts_with s (codes "whitelist")
        || starts_with s (codes "banned")
        || (starts_with s (codes "client")
            && search_line
                (λ u.
                  starts_with u (codes "reject")
                  || starts_with u (codes "not allowed")
                  || starts_with u (codes "unsupported"))
                (drop 6 s))
        || (starts_with s (codes "user") && agent (drop 4 s)))
      r

unfoldable pub says_unregistered : Text → Bool
says_unregistered r =
    search
      (λ s.
        starts_with s (codes "unregistered")
        || starts_with s (codes "not registered")
        || starts_with s (codes "not found")
        || starts_with s (codes "not exist")
        || starts_with s (codes "unknown torrent")
        || starts_with s (codes "torrent not"))
      r

unfoldable pub classify_announce : TrackerStat → TrackerFailure
unfolding says_rejected says_unregistered
classify_announce ts =
    if not ts.has_announced || ts.last_announce_succeeded
    then fine
    else let r = lower ts.last_announce_result in
      if says_rejected r
      then client_rejected
      else if says_unregistered r
      then torrent_level
      else tracker_level

abbrev pub is_fine : TrackerFailure → Bool
is_fine fine = true
is_fine _ = false

unfoldable pub has_tracker_problem : TorrentSummary → Bool
unfolding classify_announce
has_tracker_problem t = any (λ ts. not (is_fine (classify_announce ts))) t.tracker_stats

-- The trackers a torrent uses: those that announced, or all if none did.
unfoldable pub used_trackers : TorrentSummary → List TrackerStat
used_trackers t =
    if any (λ ts. TrackerStat.has_announced ts) t.tracker_stats
    then keep (λ ts. TrackerStat.has_announced ts) t.tracker_stats
    else t.tracker_stats

unfoldable pub uses_tracker : (Text → Text) → TorrentSummary → Text → Bool
unfolding used_trackers
uses_tracker host_of t host =
    any (λ ts. text_eq (host_of (TrackerStat.announce ts)) host) (used_trackers t)

unfoldable pub rank : TorrentSummary → ℕ
unfolding has_tracker_problem
rank t = if not (t.error == 0) then 0 else if has_tracker_problem t then 1 else elim t.status [
  | check ↦ 2
  | check_wait ↦ 2
  | download_wait ↦ 3
  | download ↦ 4
  | seed_wait ↦ 5
  | seed ↦ 6
  | stopped ↦ 7
]

pub record Swarm : Type 0 where
  pub seeds : ℕ
  pub leechers : ℕ

abbrev swarm_from : Swarm → List TrackerStat → Swarm
swarm_from s [] = s
swarm_from s (ts ∷ rest) =
    swarm_from
      (record { seeds = max s.seeds ts.seeder_count; leechers = max s.leechers ts.leecher_count })
      rest

unfoldable pub swarm_of : TorrentSummary → Swarm
swarm_of t = swarm_from (record { seeds = 0; leechers = 0 }) t.tracker_stats
