-- ===== src/Store/Layout/Bounds.antt =====
-- The bounds of the sidebar's width.
use native.Mathlib.Nat.{div-mul-le_self, lt-mul-div-succ, mul-le-mul_right}
use transmission_ui.Prelude.{
  if-cases, leb, zero, suc, ◌/◌, ◌^◌, min, ltb, ltb→lt, Bool-cases, ℕ, ◌+◌, ◌*◌, ◌≤◌, ◌<◌, max, ◌≡◌,
  refl, ◌⊎◌, inl, inr, true, Option, none, some, arith,
}
use transmission_ui.Prelude.Int.{ℤ, pos, negsuc, neg}
use transmission_ui.Store.Layout.{
  Finite, rounded, round, clamped, sidebar_default, sidebar_min, sidebar_max, clamp_sidebar,
  displayed_sidebar_w, initial_sidebar_w,
}

-- A width that the sidebar may have.
abbrev pub IsWidth : ℕ → Type 0
IsWidth w = (sidebar_min ≤ w) × (w ≤ sidebar_max)

-- The whole number nearest to `n` over `d`, where half way goes up.
abbrev IsNearest : ℕ → ℕ → ℕ → Type 0
IsNearest n d w = (w * (2 * d) ≤ 2 * n + d) × (2 * n + d < (w + 1) * (2 * d))

-- What is restored of the number `n` over `d`: the nearest whole number, or the bound behind which that lies.
pub data IsRestored (n d w : ℕ) : Type 0 where
  nearest : IsNearest n d w → IsRestored n d w
  too_low : w ≡ sidebar_min → 2 * n + d < sidebar_min * (2 * d) → IsRestored n d w
  too_high : w ≡ sidebar_max → sidebar_max * (2 * d) ≤ 2 * n + d → IsRestored n d w

-- The width of the first snapshot for what is stored: the default where that is no finite number, and the least
-- width for a negative one.
abbrev IsRead : ℤ → ℕ → ℕ → Type 0
IsRead (pos n) d w = IsRestored n d w
IsRead (negsuc n) d w = w ≡ sidebar_min

abbrev pub IsInitial : Option Finite → ℕ → Type 0
IsInitial none w = w ≡ sidebar_default
IsInitial (some x) w = IsRead x.numerator (2 ^ x.halvings) w

clamped-IsRestored :
    (n d q : ℕ) → IsNearest n d q → IsRestored n d (min (max q sidebar_min) sidebar_max)
clamped-IsRestored n d q (low, high) = elim (Bool-cases (ltb q sidebar_min)) [
  | inl below ↦ too_low (ground (arith, below)) (
      ground (
        arith,
        high,
        mul-le-mul_right {m = q + 1} {n = sidebar_min} (2 * d) (ground (arith, below)),
      ))
  | inr least ↦ elim (Bool-cases (ltb sidebar_max q)) [
    | inl above ↦ too_high (ground (arith, above)) (
        ground
          (arith, low, mul-le-mul_right {m = sidebar_max} {n = q} (2 * d) (ground (arith, above))))
    | inr most ↦
        let same : min (max q sidebar_min) sidebar_max ≡ q = ground (arith, least, most) in
        rw same (nearest (low, high))
  ]
]

pow_pos : (k : ℕ) → 0 < 2 ^ k
pow_pos zero = omega arith
pow_pos (suc k) = omega (arith, pow_pos k)

clamped-IsWidth : (z : ℤ) → IsWidth (clamped z)
clamped-IsWidth (pos w) = (omega arith, omega arith)
clamped-IsWidth (negsuc w) = (omega arith, omega arith)

neg-clamped : (n : ℕ) → clamped (neg (pos n)) ≡ sidebar_min
neg-clamped n =
    if-cases (λ z. clamped z ≡ sidebar_min) (leb n 0) _ _ (λ least. refl) (λ below. refl)

-- The width of the first snapshot is within the bounds: a stored number is rounded to the nearest whole one, half
-- way up, and clamped, and without one it is the default.
pub initial_sidebar_w-IsWidth :
    (stored : Option Finite)
    → IsWidth (initial_sidebar_w stored) × IsInitial stored (initial_sidebar_w stored)
unfolding initial_sidebar_w clamp_sidebar
initial_sidebar_w-IsWidth none = ((omega arith, omega arith), refl)
initial_sidebar_w-IsWidth (some x) = (clamped-IsWidth (round x), restored x.numerator)
  where
    restored : (z : ℤ) → IsRead z (2 ^ x.halvings) (clamped (rounded z (2 ^ x.halvings)))
    restored (pos n) =
        let d = 2 ^ x.halvings in
        let positive : 0 < 2 * d = omega (arith, pow_pos x.halvings) in
        clamped-IsRestored n d ((2 * n + d) / (2 * d))
          (div-mul-le_self (2 * n + d) (2 * d), grind (arith, lt-mul-div-succ (2 * n + d) positive))
    restored (negsuc n) = neg-clamped ((2 * n + 1 + 2 ^ x.halvings) / (2 * 2 ^ x.halvings))

-- In a viewport of a known width a preference within the bounds is shown within the bounds, not wider
-- than it is, and not wider than 40 % of the viewport, rounded, where that is not below the least width;
-- it is shown as it is unless it exceeds these 40 %.
pub displayed_sidebar_w-IsWidth :
    (vw preference : ℕ)
    → 0 < vw
    → IsWidth preference
    → IsWidth (displayed_sidebar_w vw preference)
      × (displayed_sidebar_w vw preference ≤ preference)
      × (10 * displayed_sidebar_w vw preference ≤ max (10 * sidebar_min) (4 * vw) + 5)
      × ((displayed_sidebar_w vw preference ≡ preference) ⊎ (4 * vw < 10 * preference))
unfolding displayed_sidebar_w
displayed_sidebar_w-IsWidth vw preference known (low, high) =
    let e : ltb 0 vw ≡ true = ground arith in
    rw e (
      (omega arith, omega arith),
      omega arith,
      omega arith,
      elim (Bool-cases (ltb (4 * vw) (10 * preference))) [
        | inl wide ↦ inr (ltb→lt _ _ wide)
        | inr fits ↦ inl (ground arith)
      ],
    )
