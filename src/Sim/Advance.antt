-- ===== src/Sim/Advance.antt =====
-- `advance` of ui/sim/tick.ts: one torrent, one step. The amounts that the tick multiplies out of its length are
-- an argument; what a magnet turns out to be is a fixture, and a parameter.
pub mod Counts
pub mod Sound
use transmission_ui.Prelude.{
  ltb, leb, ◌==◌, if◌then◌else◌, ℕ, ◌+◌, ◌*◌, ◌/◌, min, max, Bool, true, false, ◌&&◌, ◌||◌, Option,
  none, some,
}
use transmission_ui.Prelude.Int.{ℤ, pos, negsuc}
use transmission_ui.Types.{whole, Status, status_eq, Session}
use transmission_ui.Types.{stopped, check_wait, check, download_wait, download, seed_wait, seed}
use transmission_ui.Types.Detail.{TorrentDetail}
use transmission_ui.Sim.{SimFields}
use transmission_ui.Sim.Derive.{share, reconcile}
use transmission_ui.Sim.Goals.{seed_goal, seed_idle_limit_of, eta_of}
use transmission_ui.Sim.Rand.{int, chance}
use transmission_ui.Sim.Rates.{Speeds}

-- What a step of length `dt` comes to: bytes for a rate, the shares of a verify and of the metadata, the seconds,
-- and the chances of a stall and of a recheck, in millionths.
pub record Amounts : Type 0 where
  pub down_bytes : ℕ
  pub up_bytes : ℕ
  pub checked : ℕ
  pub fetched : ℕ
  pub seconds : ℕ
  pub stall_chance : ℕ
  pub recheck_chance : ℕ

pub record Advanced : Type 0 where
  pub torrent : TorrentDetail
  pub fields : SimFields
  pub changed : Bool

abbrev pub at_rest : TorrentDetail → TorrentDetail
at_rest t = record t { rate_download = 0; rate_upload = 0; eta = negsuc 0 }

-- A finished verify rejoins the queue.
unfoldable pub verified : Status → TorrentDetail → TorrentDetail
unfolding reconcile
verified prev t =
    let u = reconcile (record t {
      recheck_progress = 0;
      have_valid = t.have_valid + t.have_unchecked;
      have_unchecked = 0;
    }) in
    record u {
      status =
          if status_eq prev stopped
          then stopped
          else if leb whole u.percent_done
          then seed_wait
          else download_wait;
    }

unfoldable pub check_on : ℕ → SimFields → TorrentDetail → TorrentDetail
unfolding verified
check_on share f t =
    let u = record t {
      recheck_progress = min whole (t.recheck_progress + share);
      rate_download = 0;
      rate_upload = 0;
    } in
    if leb whole u.recheck_progress then verified f.prev_status u else u

-- The bytes that arrive, with the odd bad piece.
unfoldable pub gain_bytes : ℕ → TorrentDetail × SimFields → TorrentDetail × SimFields
gain_bytes bytes (t, f) =
    let gained = min bytes t.left_until_done in
    let (bad, a) = chance 2_000 f.rand in
    let u = record t {
      have_valid = t.have_valid + gained;
      downloaded_ever = t.downloaded_ever + gained;
      corrupt_ever = t.corrupt_ever + (if bad then min t.piece_size gained else 0);
    } in
    if ltb 0 gained then (u, record f { rand = a }) else (t, f)

-- `uploaded / downloaded` in millionths, -2 for infinity, -1 for none.
abbrev pub ratio_after : ℕ → ℕ → ℤ
ratio_after up down =
    if ltb 0 down then pos (up * whole / down) else if ltb 0 up then negsuc 1 else negsuc 0

-- The counts of a running torrent.
unfoldable pub count_on : Speeds → Amounts → TorrentDetail → TorrentDetail
unfolding reconcile
count_on want dt t =
    let u = reconcile (record t { uploaded_ever = t.uploaded_ever + dt.up_bytes }) in
    record u {
      rate_download = if status_eq u.status download then want.down else 0;
      rate_upload = want.up;
      seconds_downloading =
          u.seconds_downloading + (if status_eq u.status download then dt.seconds else 0);
      seconds_seeding = u.seconds_seeding + (if status_eq u.status seed then dt.seconds else 0);
      upload_ratio = ratio_after u.uploaded_ever u.downloaded_ever;
    }

unfoldable pub maybe_stall : ℕ → ℕ → TorrentDetail × SimFields → TorrentDetail × SimFields
maybe_stall p now (t, f) =
    let (stalls, a) = chance p f.rand in
    let (d, b) = int 10 30 a in
    (
      t,
      if status_eq t.status download && ltb 0 t.rate_download
          then (if stalls
              then record f { stall_until = now + d; rand = b }
              else record f { rand = a })
          else f,
    )

unfoldable pub completes : TorrentDetail → Bool
completes t = status_eq t.status download && (t.left_until_done == 0)

unfoldable pub complete : ℕ → TorrentDetail → TorrentDetail
complete now t = record t {
  status = seed;
  percent_done = whole;
  done_date = now;
  rate_download = 0;
}

abbrev pub reaches : Option ℕ → ℤ → Bool
reaches none r = false
reaches (some g) (pos r) = leb g r
reaches (some g) (negsuc r) = false

abbrev pub finished : TorrentDetail → TorrentDetail
finished t = record t { status = stopped; is_finished = true; rate_upload = 0 }

unfoldable pub recheck : TorrentDetail → TorrentDetail
recheck t = record t {
  have_unchecked = t.have_valid;
  have_valid = 0;
  recheck_progress = 0;
  status = check_wait;
}

abbrev pub is_idle : Option ℕ → ℕ → TorrentDetail → Bool
is_idle none now t = false
is_idle (some limit) now t = ltb (t.activity_date + limit * 60) now

abbrev pub if_met : Bool → TorrentDetail → TorrentDetail
if_met true t = record (finished t) { eta = negsuc 0 }
if_met false t = t

abbrev pub if_idle : Bool → TorrentDetail → TorrentDetail
if_idle true t = finished t
if_idle false t = t

-- A recheck ends the step early.
abbrev pub seed_end : Bool → TorrentDetail → TorrentDetail → SimFields → Bool → Advanced
seed_end true checking t f changed = record {
  torrent = checking;
  fields = record f { prev_status = seed };
  changed = true;
}
seed_end false checking t f changed = record { torrent = t; fields = f; changed = changed }

-- From the goal on.
unfoldable pub seed_on : Session → Amounts → ℕ → Bool → TorrentDetail × SimFields → Advanced
unfolding recheck eta_of seed_goal seed_idle_limit_of
seed_on s dt now changed (t, f) =
    let goal = seed_goal s t in
    let met = status_eq t.status seed && reaches goal t.upload_ratio in
    let u = if_met met t in
    let (rechecks, a) = chance dt.recheck_chance f.rand in
    let seeding = status_eq u.status seed in
    let g = if seeding then record f { rand = a } else f in
    let idle = seeding && is_idle (seed_idle_limit_of s u) now u in
    let v = if_idle idle u in
    seed_end (seeding && rechecks) (recheck u) (record v { eta = eta_of v goal }) g
      (changed || met || idle)

abbrev pub if_complete : Bool → Session → Amounts → ℕ → TorrentDetail × SimFields → Advanced
unfolding complete seed_on
if_complete true s dt now (u, g) =
    seed_on s dt now true (complete now u, record g { base_up = max g.base_up 120_000 })
if_complete false s dt now (u, g) = seed_on s dt now false (u, g)

unfoldable pub run_on : Session → Speeds → Amounts → ℕ → TorrentDetail × SimFields → Advanced
unfolding gain_bytes count_on maybe_stall completes if_complete
run_on s want dt now tf =
    let (t, f) = gain_bytes dt.down_bytes tf in
    let (u, g) = maybe_stall dt.stall_chance now (count_on want dt t, f) in
    if_complete (completes u) s dt now (u, g)

module _ (reveal : ℕ → TorrentDetail → TorrentDetail) where
  -- The metadata of a magnet arrives.
  unfoldable pub fetch_on : Speeds → ℕ → TorrentDetail → SimFields → Advanced
  fetch_on want share t f =
      let u = record t {
        metadata_percent_complete = min whole (t.metadata_percent_complete + share);
        rate_download = want.down;
        rate_upload = 0;
      } in
      if leb whole u.metadata_percent_complete
      then record {
        torrent = reveal f.swarm u;
        fields = record f { base_down = 1_600_000; base_up = 60_000 };
        changed = true;
      }
      else record { torrent = u; fields = f; changed = true }

  unfoldable pub advance : Session → Speeds → Amounts → ℕ → TorrentDetail → SimFields → Advanced
  unfolding fetch_on check_on run_on
  advance s want dt now t f =
      let still : Advanced = record { torrent = at_rest t; fields = f; changed = false } in
      if ltb t.metadata_percent_complete whole
      then (if status_eq t.status download then fetch_on want dt.fetched t f else still)
      else if status_eq t.status check
      then record { torrent = check_on dt.checked f t; fields = f; changed = true }
      else if status_eq t.status download || status_eq t.status seed
      then run_on s want dt now (t, f)
      else still
