-- ===== src/Format/Tests.antt =====
-- Texts of times.
use transmission_ui.Prelude.{codes, ◌*◌, ◌/◌, ◌≡◌, refl}
use transmission_ui.Prelude.Decimal.{show}
use transmission_ui.Format.{duration, ago}
use transmission_ui.Format.Durations.{seconds_in, grain, seconds_in-duration}

one_day : duration 90_061 ≡ codes "1d 1h"
unfolding duration show
one_day = refl

weeks_ago : ago 1_000_000_000 100 ≡ codes "1 week ago"
unfolding ago show
weeks_ago = refl

seconds_in-duration_example : seconds_in (duration 90_061) ≡ 90_061 / grain 90_061 * grain 90_061
seconds_in-duration_example = seconds_in-duration 90_061
