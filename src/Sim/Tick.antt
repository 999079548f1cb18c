-- ===== src/Sim/Tick.antt =====
-- `tick` of ui/sim/tick.ts. Times within a step are in milliseconds. What a step's length multiplies out to
-- (`amounts`, the bytes that a rate comes to, the seconds), the
-- wave of the rates, the reveal of a magnet and the drift of the peers are parameters.
use transmission_ui.Prelude.{
  ltb, leb, ◌==◌, if◌then◌else◌, keep, Text, ℕ, ◌+◌, ◌-◌, ◌*◌, ◌/◌, min, max, Bool, ◌||◌, List, [],
  ◌∷◌, ◌++◌,
}
use transmission_ui.Prelude.Keyed.{nat_eq, text_eq_inst, insert}
use transmission_ui.Types.{Session, StatsBlock}
use transmission_ui.Types.Detail.{TorrentDetail}
use transmission_ui.Sim.{SimFields, SimState}
use transmission_ui.Sim.Rand.{next}
use transmission_ui.Sim.Queue.{promote_queue}
use transmission_ui.Sim.Rates.{Speeds, wanted_rates, Wants, apply_session_caps}
use transmission_ui.Sim.Advance.{Amounts, advance}
use transmission_ui.Sim.Announce.{TrackerDef, flap_trackers, announce}
use transmission_ui.Sim.Fields.{fields_of}

-- `MAX_DT`, in milliseconds.
abbrev pub max_dt : ℕ
max_dt = 5_000

-- The length of the step, clamped first and scaled second.
unfoldable pub step_length : ℕ → ℕ → ℕ → ℕ
step_length speed last now_ms = min (now_ms - last) max_dt * speed

-- `now - Math.max(recentWindowSec, 60) * 2` may be negative.
unfoldable pub trim_removed : ℕ → SimState → SimState
trim_removed now s = record s {
  removed = keep (λ r. leb now (r.at + max s.recent_window_sec 60 * 2)) s.removed;
}

pub record Ticked : Type 0 where
  pub torrents : List TorrentDetail
  pub sim : List (ℕ × SimFields)
  pub rand : ℕ
  pub down : ℕ
  pub up : ℕ

unfoldable pub count_stats : ℕ → ℕ → ℕ → StatsBlock → StatsBlock
count_stats down up seconds b = record b {
  downloaded_bytes = b.downloaded_bytes + down;
  uploaded_bytes = b.uploaded_bytes + up;
  seconds_active = b.seconds_active + seconds;
}

abbrev pub bumps : SimFields → Bool → TorrentDetail → Bool
bumps f changed t =
    ltb 0 t.rate_download || ltb 0 t.rate_upload || ltb 0 f.prev_down || ltb 0 f.prev_up || changed

module _ (wave : ℕ → SimFields → ℕ) (amounts : ℕ → SimFields → Speeds → Amounts)
    (bytes_in : ℕ → ℕ → ℕ) (seconds_in : ℕ → ℕ) (reveal : ℕ → TorrentDetail → TorrentDetail)
    (drift : ℕ → TorrentDetail → SimFields → TorrentDetail × SimFields) (host_of : Text → Text)
    (defs : List TrackerDef) (times : ℕ → ℕ → ℕ → ℕ) where
  -- What each torrent wants; its jitter takes a draw.
  unfoldable pub want_each :
      ℕ → List TorrentDetail → List (ℕ × SimFields) → Wants × List (ℕ × SimFields)
  unfolding wanted_rates fields_of next
  want_each now [] sim = ([], sim)
  want_each now (t ∷ ts) sim =
      let f = fields_of sim t in
      let (ws, m) = want_each now ts (insert t.id (record f { rand = (next f.rand).1 }) sim) in
      ((t, wanted_rates wave f t now) ∷ ws, m)

  -- The loop over the torrents.
  unfoldable pub tick_each : Session → List (Text × ℕ) → ℕ → ℕ → Wants → Ticked → Ticked
  unfolding fields_of advance announce
  tick_each s down now dt [] k = k
  tick_each s down now dt ((t, want) ∷ ws) k =
      let f = fields_of k.sim t in
      let step = advance reveal s want (amounts dt f want) now t f in
      let u = step.torrent in
      let v = if bumps step.fields step.changed u then record u { activity_date = now } else u in
      let g = record step.fields { prev_down = u.rate_download; prev_up = u.rate_upload } in
      let (told, a) = announce host_of defs down now v k.rand in
      let (x, h) = drift dt told g in
      tick_each s down now dt ws (record {
        torrents = k.torrents ++ x ∷ [];
        sim = insert t.id h k.sim;
        rand = a;
        down = k.down + u.rate_download;
        up = k.up + u.rate_upload;
      })

  -- A step of some length.
  unfoldable pub step_world : ℕ → ℕ → SimState → SimState
  unfolding trim_removed flap_trackers want_each apply_session_caps tick_each promote_queue
      count_stats
  step_world now dt s0 =
      let s = trim_removed now s0 in
      let o =
        flap_trackers host_of defs now
          (record { down = s.tracker_down; next = s.tracker_next; rand = s.rand }) in
      let (wants, sim) = want_each now s.torrents s.sim in
      let k =
        tick_each s.session o.down now dt (apply_session_caps times s.session wants)
          (record { torrents = []; sim = sim; rand = o.rand; down = 0; up = 0 }) in
      record s {
        torrents = promote_queue s.session now k.torrents;
        sim = k.sim;
        tracker_down = o.down;
        tracker_next = o.next;
        rand = k.rand;
        cur = count_stats (bytes_in k.down dt) (bytes_in k.up dt) (seconds_in dt) s.cur;
        cum = count_stats (bytes_in k.down dt) (bytes_in k.up dt) (seconds_in dt) s.cum;
      }

  unfoldable pub tick : ℕ → SimState → SimState
  unfolding step_length step_world
  tick now_ms s0 =
      let dt = step_length s0.speed s0.last_tick_ms now_ms in
      let s = record s0 { last_tick_ms = now_ms } in
      if dt == 0 then s else step_world (now_ms / 1_000) dt s
