-- ===== src/Sim/Announce.antt =====
-- The trackers in ui/sim/tick.ts: `flapTrackers`, `moodOf` and `announce`. The table of the trackers is a fixture
-- and an argument; `host_of` is the host of an address.
pub mod Again
use transmission_ui.Prelude.{
  ltb, leb, if◌then◌else◌, or_else, is_some, any, find, Text, codes, text_eq, ℕ, ◌+◌, ◌-◌, Bool,
  true, false, not, ◌&&◌, ◌||◌, Option, none, some, List, [], ◌∷◌,
}
use transmission_ui.Prelude.Keyed.{nat_eq, text_eq_inst, lookup, insert, erase}
use transmission_ui.Types.{status_eq, TrackerStat}
use transmission_ui.Types.{stopped}
use transmission_ui.Types.Detail.{TorrentDetail}
use transmission_ui.Sim.Rand.{int, below}

pub data Mood : Type 0 where
  fine timeout missing rejected flap : Mood

pub record TrackerDef : Type 0 where
  pub announce : Text
  pub mood : Mood

abbrev pub mood_result : Mood → Text
mood_result fine = codes "Success"
mood_result timeout = codes "Connection timed out"
mood_result missing = codes "Tracker gave HTTP response code 404 (Not Found)"
mood_result rejected = codes "Client is not whitelisted"
mood_result flap = codes "Connection timed out"

-- The outages, the next ones, and the generator.
pub record Outages : Type 0 where
  pub down : List (Text × ℕ)
  pub next : List (Text × ℕ)
  pub rand : ℕ

-- A backup waits until no tracker has announced; nobody announces before its time.
abbrev pub is_due : Bool → ℕ → TrackerStat → Bool
is_due announced now ts =
    not (not ts.has_announced && ltb 0 ts.tier && announced) && leb ts.next_announce_time now

abbrev pub some_announced : List TrackerStat → Bool
some_announced ts = any (λ s. s.has_announced) ts

module _ (host_of : Text → Text) (defs : List TrackerDef) where
  abbrev begin_outage : Text → ℕ → Outages → Outages
  begin_outage host now o =
      let (d, a) = int 780 1200 o.rand in
      if leb (or_else (lookup host o.next) now) now
      then record o { down = insert host (now + d) o.down; rand = a }
      else o

  abbrev end_outage : Text → ℕ → ℕ → Outages → Outages
  end_outage host until now o =
      let (d, a) = int 420 900 o.rand in
      if leb until now
      then record { down = erase host o.down; next = insert host (now + d) o.next; rand = a }
      else o

  abbrev flap_host : Text → ℕ → Option ℕ → Outages → Outages
  flap_host host now none o = begin_outage host now o
  flap_host host now (some until) o = end_outage host until now o

  abbrev flap_def : ℕ → TrackerDef → Outages → Outages
  flap_def now def o = elim def.mood [
    | flap ↦ flap_host (host_of def.announce) now (lookup (host_of def.announce) o.down) o
    | _ ↦ o
  ]

  abbrev flap_each : ℕ → List TrackerDef → Outages → Outages
  flap_each now [] o = o
  flap_each now (def ∷ ds) o = flap_each now ds (flap_def now def o)

  unfoldable pub flap_trackers : ℕ → Outages → Outages
  flap_trackers now o = flap_each now defs o

  abbrev def_of : Text → Option TrackerDef
  def_of url = find (λ d. text_eq d.announce url) defs

  abbrev mood_ok : List (Text × ℕ) → Text → Mood → Bool
  mood_ok down url fine = true
  mood_ok down url flap = not (is_some (lookup (host_of url) down))
  mood_ok down url _ = false

  -- Whether `moodOf` is 'ok'.
  unfoldable pub is_ok : List (Text × ℕ) → Text → Bool
  is_ok down url = elim (def_of url) [ none ↦ true | some d ↦ mood_ok down url d.mood ]

  unfoldable pub result_for : Text → Text
  result_for url = elim (def_of url) [ none ↦ codes "Success" | some d ↦ mood_result d.mood ]

  abbrev after_announce : Bool → ℕ → ℕ → TrackerStat → TrackerStat
  unfolding result_for
  after_announce ok now wait ts = record ts {
    has_announced = true;
    announce_state = 1;
    last_announce_time = now;
    last_announce_succeeded = ok;
    last_announce_result = if ok then codes "Success" else result_for ts.announce;
    next_announce_time = now + wait;
  }

  -- One announce, with its draws; `n + r.int(-8, 9)` is not under 0.
  unfoldable pub announce_one : List (Text × ℕ) → ℕ → TrackerStat → ℕ → TrackerStat × ℕ
  unfolding after_announce is_ok
  announce_one down now ts state =
      let ok = is_ok down ts.announce in
      let (wait, a) = int 240 360 state in
      let (peers, b) = int 20 60 a in
      let (seeders, c) = below 18 b in
      let (leechers, d) = below 12 c in
      let u = after_announce ok now wait ts in
      if ok
      then (
        record u {
          last_announce_peer_count = peers;
          has_scraped = true;
          last_scrape_succeeded = true;
          last_scrape_time = now;
          seeder_count = u.seeder_count + seeders - 8;
          leecher_count = u.leecher_count + leechers - 5;
        },
        d,
      )
      else (record u { last_announce_peer_count = 0; last_scrape_succeeded = false }, a)

  -- The loop of `announce`; `earlier` says whether one before has announced.
  unfoldable pub announce_each :
      List (Text × ℕ) → ℕ → Bool → List TrackerStat → ℕ → List TrackerStat × ℕ
  unfolding announce_one
  announce_each down now earlier [] state = ([], state)
  announce_each down now earlier (s ∷ ss) state =
      let (u, a) = announce_one down now s state in
      let (us, z) = announce_each down now true ss a in
      let (vs, y) = announce_each down now (earlier || s.has_announced) ss state in
      if is_due (earlier || some_announced (s ∷ ss)) now s then (u ∷ us, z) else (s ∷ vs, y)

  unfoldable pub announce : List (Text × ℕ) → ℕ → TorrentDetail → ℕ → TorrentDetail × ℕ
  unfolding announce_each
  announce down now t state =
      let (stats, a) = announce_each down now false t.tracker_stats state in
      if status_eq t.status stopped then (t, state) else (record t { tracker_stats = stats }, a)
