-- ===== src/Sim/Rates/Budget.antt =====
-- The session's limits are a budget for the torrents that honor them.
use native.Mathlib.Nat.{le-div_iff_mul-le, mul-div_cancel}
use transmission_ui.Prelude.{
  if◌then◌else◌, ap, leb, ◌==◌, Bool-cases, if-cases, ℕ, ◌+◌, ◌*◌, ◌/◌, ◌≤◌, ◌<◌, ◌≡◌, refl, ◌∙◌,
  inl, inr, false, ◌||◌, Option, none, some, [], ◌∷◌, arith,
}
use transmission_ui.Types.{Session}
use transmission_ui.Types.Detail.{TorrentDetail}
use transmission_ui.Sim.Rates.{
  Speeds, Way, downward, upward, rate_of, with_rate, cap_of, Wants, honored_sum, scaled, capped,
  apply_session_caps,
}

rate_of-with_rate : (way : Way) (n : ℕ) (r : Speeds) → rate_of way (with_rate way n r) ≡ n
rate_of-with_rate downward n r = refl
rate_of-with_rate upward n r = refl

-- How many torrents honor the limits.
abbrev pub honoring : Wants → ℕ
honoring [] = 0
honoring ((t, r) ∷ ws) = (if t.honors_session_limits then 1 else 0) + honoring ws

-- Torrent by torrent no rate is raised, and those that do not honor the limits keep theirs.
pub data IsLowered : Wants → Wants → Type 0 where
  nil : IsLowered [] []
  cons :
      {t : TorrentDetail} {r q : Speeds} {ws us : Wants}
      → q.down ≤ r.down
      → q.up ≤ r.up
      → (t.honors_session_limits ≡ false → q ≡ r)
      → IsLowered ws us
      → IsLowered ((t, r) ∷ ws) ((t, q) ∷ us)

same-IsLowered : (ws : Wants) → IsLowered ws ws
same-IsLowered [] = nil
same-IsLowered ((t, r) ∷ ws) = cons (omega arith) (omega arith) (λ e. refl) (same-IsLowered ws)

with_rate-le :
    (way : Way) (n : ℕ) (r : Speeds)
    → n ≤ rate_of way r
    → ((with_rate way n r).down ≤ r.down) × ((with_rate way n r).up ≤ r.up)
with_rate-le downward n r h = (h, omega arith)
with_rate-le upward n r h = (omega arith, h)

IsLowered-chain : {ws us vs : Wants} → IsLowered ws us → IsLowered us vs → IsLowered ws vs
IsLowered-chain nil nil = nil
IsLowered-chain (cons a b e h) (cons c d f k) =
    cons (omega (arith, a, c)) (omega (arith, b, d)) (λ x. f x ∙ e x) (IsLowered-chain h k)

IsLowered-sum :
    (way : Way) {ws us : Wants} → IsLowered ws us → honored_sum way us ≤ honored_sum way ws
IsLowered-sum way nil = omega arith
IsLowered-sum way (cons {t} a b e h) = elim (Bool-cases t.honors_session_limits) [
  | inl honors ↦ rw honors (rated way a b (IsLowered-sum way h))
  | inr ignores ↦ rw ignores (omega (arith, IsLowered-sum way h))
]
  where
    rated :
        (way : Way) {q r : Speeds} {n m : ℕ}
        → q.down ≤ r.down
        → q.up ≤ r.up
        → n ≤ m
        → rate_of way q + n ≤ rate_of way r + m
    rated downward a b c = omega (arith, a, c)
    rated upward a b c = omega (arith, b, c)

IsLowered-honoring : {ws us : Wants} → IsLowered ws us → honoring us ≡ honoring ws
IsLowered-honoring nil = refl
IsLowered-honoring (cons {t} a b e h) =
    ap (λ n. (if t.honors_session_limits then 1 else 0) + n) (IsLowered-honoring h)

factor-le : (s sum n : ℕ) → 0 < sum → s * sum ≤ n * sum → s ≤ n
factor-le s sum n p h =
    let le : s ≤ n * sum / sum = (le-div_iff_mul-le {k = sum} {x = s} {y = n * sum} p).1 h in
    omega (arith, le, mul-div_cancel n p)

-- A product is off by at most one unit, and a factor below one raises no rate.
module _ (times : ℕ → ℕ → ℕ → ℕ)
    (near : (rate cap sum : ℕ) → times rate cap sum * sum ≤ rate * cap + sum)
    (lowers : (rate cap sum : ℕ) → cap ≤ sum → times rate cap sum ≤ rate) where
  scaled_product :
      (way : Way) (cap sum : ℕ) (ws : Wants)
      → honored_sum way (scaled times way cap sum ws) * sum
        ≤ honored_sum way ws * cap + honoring ws * sum
  scaled_product way cap sum [] = omega arith
  scaled_product way cap sum ((t, r) ∷ ws) = elim (Bool-cases t.honors_session_limits) [
    | inl honors ↦
        let part = near (rate_of way r) cap sum in
        let rest = scaled_product way cap sum ws in
        rw (honors, rate_of-with_rate way (times (rate_of way r) cap sum) r) (grind arith)
    | inr ignores ↦ rw ignores (grind (arith, scaled_product way cap sum ws))
  ]

  capped-le :
      (way : Way) (cap : ℕ) (ws : Wants)
      → honored_sum way (capped times way (some cap) ws) ≤ cap + honoring ws
  capped-le way cap ws =
      let sum = honored_sum way ws in
      if-cases (λ us. honored_sum way us ≤ cap + honoring ws) (leb sum cap || (sum == 0)) ws
        (scaled times way cap sum ws) (λ fits. ground (arith, fits))
        (λ over.
          factor-le (honored_sum way (scaled times way cap sum ws)) sum (cap + honoring ws)
            (ground (arith, over)) (grind (arith, scaled_product way cap sum ws)))

  scaled-IsLowered :
      (way : Way) (cap sum : ℕ) (ws : Wants)
      → cap ≤ sum
      → IsLowered ws (scaled times way cap sum ws)
  scaled-IsLowered way cap sum [] le = nil
  scaled-IsLowered way cap sum ((t, r) ∷ ws) le =
      let rate = rate_of way r in
      let (down, up) = with_rate-le way (times rate cap sum) r (lowers rate cap sum le) in
      elim (Bool-cases t.honors_session_limits) [
        | inl honors ↦
            rw honors (cons down up (λ e. ground arith) (scaled-IsLowered way cap sum ws le))
        | inr ignores ↦
            rw ignores
              (cons (omega arith) (omega arith) (λ e. refl) (scaled-IsLowered way cap sum ws le))
      ]

  capped-IsLowered : (way : Way) (o : Option ℕ) (ws : Wants) → IsLowered ws (capped times way o ws)
  capped-IsLowered way none ws = same-IsLowered ws
  capped-IsLowered way (some cap) ws =
      let sum = honored_sum way ws in
      if-cases (IsLowered ws) (leb sum cap || (sum == 0)) ws (scaled times way cap sum ws)
        (λ fits. same-IsLowered ws) (λ over. scaled-IsLowered way cap sum ws (ground (arith, over)))

  -- The limits that hold, globally or in the alternative mode, bound what the torrents that honor them want in all,
  -- up to a unit of the rates for each of them, provided that a product of doubles is off by at most a unit and
  -- that a factor below one raises no rate; no torrent wants more than before, and those that do not honor the
  -- limits want as much as before.
  pub apply_session_caps-le :
      (s : Session) (way : Way) (cap : ℕ) (ws : Wants)
      → cap_of way s ≡ some cap
      → (honored_sum way (apply_session_caps times s ws) ≤ cap + honoring ws)
        × IsLowered ws (apply_session_caps times s ws)
  unfolding apply_session_caps
  apply_session_caps-le s way cap ws e =
      let us = capped times downward (cap_of downward s) ws in
      let first = capped-IsLowered downward (cap_of downward s) ws in
      let second = capped-IsLowered upward (cap_of upward s) us in
      (bounded way e first second, IsLowered-chain first second)
    where
      bounded :
          (way : Way)
          → cap_of way s ≡ some cap
          → IsLowered ws (capped times downward (cap_of downward s) ws)
          → IsLowered (capped times downward (cap_of downward s) ws) (apply_session_caps times s ws)
          → honored_sum way (apply_session_caps times s ws) ≤ cap + honoring ws
      bounded upward e first second =
          let us = capped times downward (cap_of downward s) ws in
          rw (e, ← IsLowered-honoring first) (capped-le upward cap us)
      bounded downward e first second =
          let us = capped times downward (cap_of downward s) ws in
          let within : honored_sum downward us ≤ cap + honoring ws =
            rw e (capped-le downward cap ws) in
          omega (arith, within, IsLowered-sum downward second)
