-- ===== src/Sim/Rates.antt =====
-- The rates of ui/sim/tick.ts: what a torrent wants, and the budget of the session. `Math.sin` is a parameter:
-- `wave` is `1 + 0.25 * sin(now / 7 + phase) + 0.08 * (rand() - 0.5)` in millionths. The speeds wanted are rounded down to the unit.
pub mod Budget
use transmission_ui.Prelude.{
  ltb, leb, ◌==◌, if◌then◌else◌, ℕ, ◌+◌, ◌*◌, ◌/◌, min, Bool, not, ◌&&◌, ◌||◌, Option, none, some,
  List, [], ◌∷◌,
}
use transmission_ui.Prelude.Keyed.{nat_eq, text_eq_inst}
use transmission_ui.Types.{whole, status_eq, Session}
use transmission_ui.Types.{download, seed}
use transmission_ui.Types.Detail.{TorrentDetail}
use transmission_ui.Sim.{SimFields}

pub record Speeds : Type 0 where
  pub down : ℕ
  pub up : ℕ

-- `if (limited) rate = Math.min(rate, limit * 1000)`
abbrev pub limited : Bool → ℕ → ℕ → ℕ
limited on limit rate = if on then min rate (limit * 1000) else rate

module _ (wave : ℕ → SimFields → ℕ) where
  unfoldable pub wanted_rates : SimFields → TorrentDetail → ℕ → Speeds
  wanted_rates f t now =
      let jitter = wave now f in
      let stalled = ltb now f.stall_until in
      let fetching = ltb t.metadata_percent_complete whole in
      let down =
        if status_eq t.status download && not stalled
        then (if fetching then 6_000 else f.base_down * jitter / whole)
        else 0 in
      let up =
        if (status_eq t.status seed || status_eq t.status download) && not stalled
        then f.base_up * jitter / whole
        else 0 in
      record {
        down = limited t.download_limited t.download_limit down;
        up = limited t.upload_limited t.upload_limit up;
      }

-- A direction: which of the two rates is read and written.
pub data Way : Type 0 where
  downward upward : Way

abbrev pub rate_of : Way → Speeds → ℕ
rate_of downward r = r.down
rate_of upward r = r.up

abbrev pub with_rate : Way → ℕ → Speeds → Speeds
with_rate downward n r = record r { down = n }
with_rate upward n r = record r { up = n }

-- `none` for Infinity.
unfoldable pub cap_of : Way → Session → Option ℕ
cap_of downward s =
    if s.alt_speed_enabled
    then some (s.alt_speed_down * 1000)
    else if s.speed_limit_down_enabled
    then some (s.speed_limit_down * 1000)
    else none
cap_of upward s =
    if s.alt_speed_enabled
    then some (s.alt_speed_up * 1000)
    else if s.speed_limit_up_enabled
    then some (s.speed_limit_up * 1000)
    else none

-- The torrents with what each wants.
abbrev pub Wants : Type 0
Wants = List (TorrentDetail × Speeds)

-- What those that honor the limits want in all.
abbrev pub honored_sum : Way → Wants → ℕ
honored_sum way [] = 0
honored_sum way ((t, r) ∷ ws) =
    (if t.honors_session_limits then rate_of way r else 0) + honored_sum way ws

-- The arithmetic of the browser: `times rate cap sum` is `rate * (cap / sum)` in doubles, to the unit of the rates.
module _ (times : ℕ → ℕ → ℕ → ℕ) where
  abbrev pub scaled : Way → ℕ → ℕ → Wants → Wants
  scaled way cap sum [] = []
  scaled way cap sum ((t, r) ∷ ws) =
      (t, if t.honors_session_limits then with_rate way (times (rate_of way r) cap sum) r else r)
      ∷ scaled way cap sum ws

  abbrev pub capped : Way → Option ℕ → Wants → Wants
  capped way none ws = ws
  capped way (some cap) ws =
      let sum = honored_sum way ws in
      if leb sum cap || (sum == 0) then ws else scaled way cap sum ws

  unfoldable pub apply_session_caps : Session → Wants → Wants
  unfolding cap_of
  apply_session_caps s ws = capped upward (cap_of upward s) (capped downward (cap_of downward s) ws)
