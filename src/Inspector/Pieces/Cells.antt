-- ===== src/Inspector/Pieces/Cells.antt =====
-- The cells of the strip divide the pieces among them.
use native.Mathlib.Nat.{le-div_iff_mul-le, div-mul-le_self, mul-div_cancel_left}
use transmission_ui.Prelude.{ℕ, ◌+◌, ◌*◌, ◌/◌, ◌≤◌, ◌<◌, ◌≡◌, arith}
use transmission_ui.Inspector.Pieces.{buckets, from_of, to_of}

next_start : (n k b : ℕ) → 0 < k → k ≤ n → b * n / k + 1 ≤ (b + 1) * n / k
next_start n k b p le =
    let below = div-mul-le_self (b * n) k in
    (le-div_iff_mul-le {k = k} {x = b * n / k + 1} {y = (b + 1) * n} p).1 (grind arith)

-- The first cell begins at the first piece, each begins where the one before it ends, the last ends with the last
-- piece, and each has at least one piece.
pub cells_divide :
    (n : ℕ)
    → 0 < n
    → (from_of n 0 ≡ 0)
      × ((b : ℕ) → b < buckets n → (to_of n b ≡ from_of n (b + 1)) × (from_of n b < to_of n b))
      × (from_of n (buckets n) ≡ n)
cells_divide n h =
    let some_bucket : 0 < buckets n = omega arith in
    (
      ground arith,
      λ b lt. (omega (arith, next_start n (buckets n) b some_bucket (omega arith)), omega arith),
      mul-div_cancel_left n some_bucket,
    )
