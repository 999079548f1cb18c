-- ===== src/Format.antt =====
-- ui/src/lib/format.ts: the texts of times. A time that was a fraction of a second is in milliseconds here,
-- and so is the clock `now`.
pub mod Durations
mod Tests
use transmission_ui.Prelude.{
  ltb, leb, ◌==◌, if◌then◌else◌, Text, codes, ℕ, ◌+◌, ◌-◌, ◌*◌, ◌/◌, ◌%◌, Bool, true, false, List,
  [], ◌∷◌, ◌++◌, arith,
}
use transmission_ui.Prelude.Int.{ℤ, pos, negsuc, is_negative, is_zero, neg, sub_ℕ}
use transmission_ui.Prelude.Decimal.{is_digit, show, read_from, read_from-show, show-ne-empty}

-- `duration` of a whole number of seconds.
unfoldable pub duration : ℕ → Text
duration s =
    let m = s / 60 in
    let h = m / 60 in
    let d = h / 24 in
    if ltb s 60
    then show s ++ codes " s"
    else if ltb 0 d
    then show d ++ (codes "d " ++ (show (h % 24) ++ codes "h"))
    else if ltb 0 h
    then show h ++ (codes "h " ++ (show (m % 60) ++ codes "m"))
    else show m ++ (codes "m " ++ (show (s % 60) ++ codes "s"))

abbrev pub dash : Text
dash = 8212 ∷ []

-- `eta`
unfoldable pub eta : ℤ → Bool → Text
unfolding duration
eta seconds true = 8734 ∷ []
eta (pos s) false = duration s
eta (negsuc s) false = dash

-- `plural`
abbrev pub plural : ℕ → Text → Text
plural n unit = show n ++ codes " " ++ unit ++ (if n == 1 then [] else codes "s") ++ codes " ago"

-- `ago` of the milliseconds that have passed, for a time other than 0.
abbrev passed : ℕ → Text
passed ms =
    let m = ms / 60_000 in
    let h = m / 60 in
    let d = h / 24 in
    if ltb ms 60_000
    then show (ms / 1000) ++ codes "s ago"
    else if ltb m 60
    then show m ++ codes "m ago"
    else if ltb h 24
    then show h ++ codes "h ago"
    else if ltb d 7
    then plural d (codes "day")
    else if ltb d 30
    then plural (d / 7) (codes "week")
    else if ltb d 365
    then plural (d / 30) (codes "month")
    else plural (d / 365) (codes "year")

unfoldable pub ago : ℕ → ℕ → Text
ago now unix = if unix == 0 then dash else passed (now - unix * 1000)

-- `inFuture`, with the seconds rounded.
unfoldable pub in_future : ℕ → ℕ → Text
unfolding duration
in_future now unix =
    if leb (unix * 1000) now
    then codes "now"
    else codes "in " ++ duration ((unix * 1000 - now + 500) / 1000)

-- `ratioOwed`, of a ratio in millionths.
unfoldable pub ratio_owed : ℤ → Bool
ratio_owed (pos r) = ltb r 1_000_000
ratio_owed (negsuc r) = false
