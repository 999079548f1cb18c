-- ===== src/Format/Durations.antt =====
-- What a duration's text says.

use transmission_ui.Prelude.{
  ltb, ◌==◌, if◌then◌else◌, Bool-cases, or_else, is_some, Text, codes, ℕ, ◌+◌, ◌-◌, ◌*◌, ◌/◌, ◌%◌,
  ◌≡◌, ap, ◌∙◌, inl, inr, true, false, Option, none, some, [], ◌∷◌, ◌++◌, arith,
}
use transmission_ui.Prelude.Decimal.{is_digit, show, read_from, read_from-show}
use transmission_ui.Format.{duration}

-- The seconds of a unit, `none` for another character.
abbrev unit : ℕ → Option ℕ
unit c =
    if c == b's'
    then some 1
    else if c == b'm'
    then some 60
    else if c == b'h'
    then some 3_600
    else if c == b'd'
    then some 86_400
    else none

-- The seconds that a text of numbers with units says, so far and with the number that is being read.
abbrev pub seconds_from : ℕ → ℕ → Text → ℕ
seconds_from total n [] = total
seconds_from total n (c ∷ s) =
    let more = seconds_from total (n * 10 + (c - b'0')) s in
    let closed = seconds_from (total + n * or_else (unit c) 0) 0 s in
    let skip = seconds_from total n s in
    if is_digit c then more else if is_some (unit c) then closed else skip

abbrev pub seconds_in : Text → ℕ
seconds_in s = seconds_from 0 0 s

seconds_from-digits :
    (s t : Text) (total acc n : ℕ)
    → read_from acc s ≡ some n
    → seconds_from total acc (s ++ t) ≡ seconds_from total n t
unfolding read_from
seconds_from-digits [] t total acc n h = ap (λ k. seconds_from total k t) (ground arith)
seconds_from-digits (c ∷ s) t total acc n h =
    ground (arith, seconds_from-digits s t total (acc * 10 + (c - b'0')) n)

seconds_from-show :
    (k : ℕ) (t : Text) (total : ℕ) → seconds_from total 0 (show k ++ t) ≡ seconds_from total k t
seconds_from-show k t total = seconds_from-digits (show k) t total 0 k (read_from-show k)

-- The least unit that a duration shows.
abbrev pub grain : ℕ → ℕ
grain s = if ltb s 3_600 then 1 else if ltb s 86_400 then 60 else 3_600

days_hours :
    (d h : ℕ)
    → seconds_in (show d ++ (codes "d " ++ (show h ++ codes "h"))) ≡ d * 86_400 + h * 3_600
days_hours d h =
    seconds_from-show d (codes "d " ++ (show h ++ codes "h")) 0
    ∙ seconds_from-show h (codes "h") (0 + d * 86_400)
    ∙ omega arith

hours_minutes :
    (h m : ℕ) → seconds_in (show h ++ (codes "h " ++ (show m ++ codes "m"))) ≡ h * 3_600 + m * 60
hours_minutes h m =
    seconds_from-show h (codes "h " ++ (show m ++ codes "m")) 0
    ∙ seconds_from-show m (codes "m") (0 + h * 3_600)
    ∙ omega arith

minutes_seconds :
    (m s : ℕ) → seconds_in (show m ++ (codes "m " ++ (show s ++ codes "s"))) ≡ m * 60 + s
minutes_seconds m s =
    seconds_from-show m (codes "m " ++ (show s ++ codes "s")) 0
    ∙ seconds_from-show s (codes "s") (0 + m * 60)
    ∙ omega arith

seconds_only : (s : ℕ) → seconds_in (show s ++ codes " s") ≡ s
seconds_only s = seconds_from-show s (codes " s") 0 ∙ omega arith

-- The text of a duration says its seconds, rounded down to the smaller of the two units that it shows.
pub seconds_in-duration : (s : ℕ) → seconds_in (duration s) ≡ s / grain s * grain s
unfolding duration
seconds_in-duration s = elim (Bool-cases (ltb s 60)) [
  | inl short ↦
      let fine : ltb s 3_600 ≡ true = ground arith in
      rw (short, fine) (seconds_only s ∙ omega arith)
  | inr long_ ↦ elim (Bool-cases (ltb s 3_600)) [
    | inl minutes ↦
        let no_day : ltb 0 (s / 60 / 60 / 24) ≡ false = ground arith in
        let no_hour : ltb 0 (s / 60 / 60) ≡ false = ground arith in
        rw (long_, minutes, no_day, no_hour) (minutes_seconds (s / 60) (s % 60) ∙ omega arith)
    | inr more ↦ elim (Bool-cases (ltb s 86_400)) [
      | inl hours ↦
          let no_day : ltb 0 (s / 60 / 60 / 24) ≡ false = ground arith in
          let hour : ltb 0 (s / 60 / 60) ≡ true = ground arith in
          rw (long_, more, hours, no_day, hour)
            (hours_minutes (s / 60 / 60) (s / 60 % 60) ∙ omega arith)
      | inr days ↦
          let day : ltb 0 (s / 60 / 60 / 24) ≡ true = ground arith in
          rw (long_, more, days, day)
            (days_hours (s / 60 / 60 / 24) (s / 60 / 60 % 24) ∙ omega arith)
    ]
  ]
]
