-- ===== src/Listing/Health.antt =====
-- `computeHealth` of ui/src/lib/model.ts: how each tracker does. Times are in milliseconds here, so that the
-- clock `now` is a whole number; `none` is Infinity. The store of first failures in the browser is the
-- argument and the result `failing_since`.
pub mod Rows
pub mod Clock
use transmission_ui.Prelude.{
  ltb, leb, ◌==◌, if◌then◌else◌, or_else, is_some, length, take, drop, keep, Text, codes,
  starts_with, is_empty, ℕ, ◌+◌, ◌*◌, min, Bool, true, false, not, ◌&&◌, ◌||◌, Option, none, some,
  List, [], ◌∷◌, ◌++◌, arith,
}
use transmission_ui.Prelude.Keyed.{nat_eq, text_eq_inst, contains, add, lookup, insert, erase}
use transmission_ui.Prelude.Comparison.{Sign, or_sign, minus, sort_by}
use transmission_ui.Prelude.Spaces.{is_space, trim_start, trim}
use transmission_ui.Types.{TrackerStat, TorrentSummary}
use transmission_ui.Trackers.{lower, tracker_name}
use transmission_ui.Listing.Status.{
  fine, tracker_level, torrent_level, client_rejected, classify_announce, used_trackers,
}

pub data HealthState : Type 0 where
  ok issues down rejected : HealthState

pub record TrackerHealth : Type 0 where
  pub host : Text
  pub count : ℕ
  pub failing : ℕ
  pub state : HealthState
  pub since : Option ℕ
  pub result : Text

-- What is counted of a host.
pub record HostCount : Type 0 where
  pub count : ℕ
  pub announced : ℕ
  pub failing : ℕ
  pub rejected_ : ℕ
  pub torrent_level_ : ℕ
  pub since : Option ℕ
  pub result : Text

abbrev pub no_count : HostCount
no_count = record {
  count = 0;
  announced = 0;
  failing = 0;
  rejected_ = 0;
  torrent_level_ = 0;
  since = none;
  result = [];
}

abbrev pub down_after : ℕ
down_after = 600_000

-- `Math.min` with Infinity.
abbrev pub earlier : Option ℕ → Option ℕ → Option ℕ
earlier none b = b
earlier (some a) none = some a
earlier (some a) (some b) = some (min a b)

abbrev or_result : Text → Text → Text
or_result a b = if is_empty a then b else a

-- The evidence of an outage that a tracker's row gives.
abbrev pub since_of : ℕ → TrackerStat → Option ℕ → Option ℕ
since_of now ts since =
    let announce_ =
      earlier since
        (some (if ts.last_announce_time == 0 then now else ts.last_announce_time * 1000)) in
    if ts.has_scraped && not ts.last_scrape_succeeded && not (ts.last_scrape_time == 0)
    then earlier announce_ (some (ts.last_scrape_time * 1000))
    else announce_

-- One tracker of one torrent.
unfoldable pub note_tracker : ℕ → TrackerStat → HostCount → HostCount
note_tracker now ts h =
    let h1 : HostCount = record h {
      count = h.count + 1;
      announced = if ts.has_announced then h.announced + 1 else h.announced;
    } in
    elim (classify_announce ts) [
      | fine ↦ h1
      | tracker_level ↦ record h1 {
        failing = h.failing + 1;
        since = since_of now ts h.since;
        result = or_result h.result ts.last_announce_result;
      }
      | client_rejected ↦ record h1 {
        failing = h.failing + 1;
        rejected_ = h.rejected_ + 1;
        since = since_of now ts h.since;
        result = or_result h.result ts.last_announce_result;
      }
      | torrent_level ↦ record h1 {
        torrent_level_ = h.torrent_level_ + 1;
        result = or_result h.result ts.last_announce_result;
      }
    ]

-- `shortResult`: without "Tracker gave" and a parenthesis at the end, and cut at 28.
abbrev drop_article : Text → Text
drop_article s =
    if starts_with (lower s) (codes "an ")
    then drop 3 s
    else if starts_with (lower s) (codes "a ")
    then drop 2 s
    else s

-- `.*\)$` at the start of a text.
abbrev closes_at_end : Text → Bool
closes_at_end [] = false
closes_at_end (c ∷ []) = c == b')'
closes_at_end (c ∷ d ∷ s) =
    not ((c == 10) || (c == 13) || (c == 8232) || (c == 8233)) && closes_at_end (d ∷ s)

abbrev opens : Text → Bool
opens [] = false
opens (c ∷ s) = (c == b'(') && closes_at_end s

abbrev cut_note : Text → Text
cut_note [] = []
cut_note (c ∷ s) = let rest = cut_note s in if opens (trim_start (c ∷ s)) then [] else c ∷ rest

unfoldable pub short_result : Text → Text
unfolding starts_with
short_result r =
    let s =
      cut_note
        (if starts_with (lower r) (codes "tracker gave ") then drop_article (drop 13 r) else r) in
    if ltb 28 (length s) then take 27 s ++ 8230 ∷ [] else s

abbrev pub all_failing : HostCount → Bool
all_failing h = ltb 0 h.announced && (h.failing == h.announced)

-- `rememberFailing`, for a time that is not Infinity.
abbrev pub remember_failing : Text → Option ℕ → List (Text × ℕ) → List (Text × ℕ)
remember_failing host none f = f
remember_failing host (some since) f = elim (lookup host f) [
  | none ↦ insert host since f
  | some cur ↦ if leb cur since then f else insert host since f
]

-- The first failures after a host was looked at.
abbrev pub clock_after : Text → HostCount → List (Text × ℕ) → List (Text × ℕ)
clock_after host h f = if all_failing h then remember_failing host h.since f else erase host f

abbrev is_nil {ℓ} : {A : Type ℓ} → List A → Bool
is_nil [] = true
is_nil (x ∷ xs) = false

-- A host that no row has any more is forgotten, unless there are no rows yet.
abbrev pub still_used :
    List TorrentSummary → List (Text × HostCount) → List (Text × ℕ) → List (Text × ℕ)
still_used ts hosts f = if is_nil ts then f else keep (λ b. is_some (lookup (b.0) hosts)) f

module _ (now : ℕ) where
  -- `now - since >= DOWN_AFTER_S`
  abbrev pub long_ago : Option ℕ → Bool
  long_ago none = false
  long_ago (some since) = leb (since + down_after) now

  unfoldable pub judge : HostCount → Option ℕ → HealthState
  judge h since =
      if ltb 0 h.rejected_ && (h.rejected_ == h.announced)
      then rejected
      else if all_failing h && long_ago since
      then down
      else if ltb 0 h.failing || ltb 0 h.torrent_level_
      then issues
      else ok

  -- One host of the table.
  unfoldable pub health_of : Text → HostCount → List (Text × ℕ) → TrackerHealth
  unfolding judge short_result
  health_of host h f =
      let since = earlier h.since (lookup host f) in
      record {
        host = host;
        count = h.count;
        failing = h.failing + h.torrent_level_;
        state = judge h since;
        since = since;
        result = short_result h.result;
      }

  unfoldable pub healths :
      List (Text × HostCount) → List (Text × ℕ) → List TrackerHealth × List (Text × ℕ)
  unfolding health_of
  healths [] f = ([], f)
  healths ((host, h) ∷ hosts) f =
      let f1 = clock_after host h f in
      let (rest, f2) = healths hosts f1 in (health_of host h f1 ∷ rest, f2)

module _ (host_of : Text → Text) (now : ℕ) where
  -- The trackers of one torrent, each host once.
  unfoldable pub note_trackers :
      List Text → List TrackerStat → List (Text × HostCount) → List (Text × HostCount)
  unfolding note_tracker
  note_trackers seen [] m = m
  note_trackers seen (ts ∷ rest) m =
      let host = host_of ts.announce in
      let on =
        note_trackers (add host seen) rest
          (insert host (note_tracker now ts (or_else (lookup host m) no_count)) m) in
      let skip = note_trackers seen rest m in if contains host seen then skip else on

  unfoldable pub count_hosts :
      List TorrentSummary → List (Text × HostCount) → List (Text × HostCount)
  unfolding note_trackers used_trackers
  count_hosts [] m = m
  count_hosts (t ∷ ts) m = count_hosts ts (note_trackers [] (used_trackers t) m)

  unfoldable pub compute_health :
      (Text → Text → Sign)
      → List TorrentSummary
      → List (Text × ℕ)
      → List TrackerHealth × List (Text × ℕ)
  unfolding count_hosts healths tracker_name
  compute_health collate ts failing_since =
      let hosts = count_hosts ts [] in
      let (out, after_) = healths now hosts (still_used ts hosts failing_since) in
      (
        sort_by
            (λ a b.
              or_sign (minus (TrackerHealth.count b) (TrackerHealth.count a)) (
                collate (tracker_name (TrackerHealth.host a))
                  (tracker_name (TrackerHealth.host b))))
            out,
        after_,
      )
