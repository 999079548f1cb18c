-- ===== src/Sim/Goals.antt =====
-- `seedGoal`, `seedIdleLimitOf` and `etaOf` of ui/sim/tick.ts. A ratio is in millionths.
use transmission_ui.Prelude.{
  ltb, ◌==◌, if◌then◌else◌, ℕ, ◌+◌, ◌-◌, ◌*◌, ◌/◌, ◌&&◌, Option, none, some,
}
use transmission_ui.Prelude.Int.{ℤ, pos, negsuc}
use transmission_ui.Types.{whole, status_eq, Session}
use transmission_ui.Types.{download, seed}
use transmission_ui.Types.Detail.{TorrentDetail}

unfoldable pub seed_goal : Session → TorrentDetail → Option ℕ
seed_goal s t =
    if t.seed_ratio_mode == 1
    then some t.seed_ratio_limit
    else if (t.seed_ratio_mode == 0) && s.seed_ratio_limited
    then some s.seed_ratio_limit
    else none

unfoldable pub seed_idle_limit_of : Session → TorrentDetail → Option ℕ
seed_idle_limit_of s t =
    if t.seed_idle_mode == 1
    then some t.seed_idle_limit
    else if (t.seed_idle_mode == 0) && s.idle_seeding_limit_enabled
    then some s.idle_seeding_limit
    else none

-- `Math.round(a / b)`
abbrev pub round_div : ℕ → ℕ → ℕ
round_div a b = (2 * a + b) / (2 * b)

-- `target > 0` for `goal * downloaded_ever - uploaded_ever`, in millionths of a byte.
abbrev eta_seeding : ℕ → TorrentDetail → ℤ
eta_seeding goal t =
    let target = goal * t.downloaded_ever - t.uploaded_ever * whole in
    if ltb 0 target then pos (round_div target (t.rate_upload * whole)) else negsuc 0

unfoldable pub eta_of : TorrentDetail → Option ℕ → ℤ
eta_of t goal =
    if status_eq t.status download && ltb 0 t.rate_download
    then pos (round_div t.left_until_done t.rate_download)
    else if status_eq t.status seed && ltb 0 t.rate_upload
    then elim goal [ none ↦ negsuc 0 | some g ↦ eta_seeding g t ]
    else negsuc 0
