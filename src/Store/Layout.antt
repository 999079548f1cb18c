-- ===== src/Store/Layout.antt =====
-- The sidebar's width in ui/src/state/store.ts.
pub mod Bounds
use transmission_ui.Prelude.{
  ℕ, ◌+◌, ◌*◌, ◌/◌, ◌^◌, ltb, Option, none, some, Text, codes, text_eq, if◌then◌else◌, min, max,
}
use transmission_ui.Prelude.Int.{ℤ, pos, negsuc, neg}
use transmission_ui.Store.{Density, compact, comfortable}

abbrev pub sidebar_min : ℕ
sidebar_min = 180

abbrev pub sidebar_max : ℕ
sidebar_max = 420

abbrev pub sidebar_default : ℕ
sidebar_default = 224

-- A finite number of the browser: an integer over a power of two.
pub record Finite : Type 0 where
  pub numerator : ℤ
  pub halvings : ℕ

-- `Math.round`: half way goes up.
abbrev pub rounded : ℤ → ℕ → ℤ
rounded (pos n) d = pos ((2 * n + d) / (2 * d))
rounded (negsuc n) d = neg (pos ((2 * n + 1 + d) / (2 * d)))

abbrev pub round : Finite → ℤ
round x = rounded x.numerator (2 ^ x.halvings)

abbrev pub clamped : ℤ → ℕ
clamped (pos w) = min (max w sidebar_min) sidebar_max
clamped (negsuc w) = sidebar_min

unfoldable pub clamp_sidebar : Finite → ℕ
clamp_sidebar x = clamped (round x)

-- `vw` is the viewport's width, 0 where it is not known. The sum runs in tenths of a pixel, so that
-- `0.4 * vw` is exact.
unfoldable pub displayed_sidebar_w : ℕ → ℕ → ℕ
displayed_sidebar_w vw preference =
    let cap = if ltb 0 vw then min (10 * sidebar_max) (4 * vw) else 10 * sidebar_max in
    (max (10 * sidebar_min) (min (10 * preference) cap) + 5) / 10

-- The stored width, `none` where it is no finite number.
unfoldable pub initial_sidebar_w : Option Finite → ℕ
unfolding clamp_sidebar
initial_sidebar_w none = sidebar_default
initial_sidebar_w (some v) = clamp_sidebar v

unfoldable pub initial_density : Text → Density
initial_density stored = if text_eq stored (codes "comfortable") then comfortable else compact
