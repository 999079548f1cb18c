-- ===== src/Inspector/Pieces.antt =====
-- `Pieces` of ui/src/inspector/Inspector.tsx: the strip of cells that shows a bitfield. The bitfield is the list
-- of its bytes, as `atob` gives them.
pub mod Cells
use transmission_ui.Prelude.{
  ltb, ◌==◌, if◌then◌else◌, get_elem?, ℕ, zero, suc, ◌+◌, ◌-◌, ◌*◌, ◌/◌, ◌%◌, ◌^◌, min, max, Bool,
  false, Option, none, some, List, [], ◌∷◌, arith,
}

pub data Cell : Type 0 where
  full part none_had : Cell

-- `(code >> (7 - q)) & 1`; behind the end the code is NaN and the bit 0.
abbrev pub bit_of : Option ℕ → ℕ → Bool
bit_of none q = false
bit_of (some b) q = b / 2 ^ (7 - q) % 2 == 1

-- `((bin.charCodeAt(i >> 3) >> (7 - (i & 7))) & 1) === 1`
unfoldable pub have : List ℕ → ℕ → Bool
have bytes i = bit_of (get_elem? bytes (i / 8)) (i % 8)

-- How many of `n` pieces from `i` are had.
unfoldable pub count_had : List ℕ → ℕ → ℕ → ℕ
unfolding have
count_had bytes i zero = 0
count_had bytes i (suc n) = (if have bytes i then 1 else 0) + count_had bytes (suc i) n

abbrev pub buckets : ℕ → ℕ
buckets n = min 192 n

abbrev pub from_of : ℕ → ℕ → ℕ
from_of n b = b * n / buckets n

abbrev pub to_of : ℕ → ℕ → ℕ
to_of n b = max (from_of n b + 1) ((b + 1) * n / buckets n)

unfoldable pub cell_of : ℕ → ℕ → Cell
cell_of got size = if got == size then full else if ltb 0 got then part else none_had

-- The cells from the bucket `b` on.
unfoldable pub cells_from : List ℕ → ℕ → ℕ → ℕ → List Cell
unfolding count_had cell_of
cells_from bytes n b zero = []
cells_from bytes n b (suc k) =
    let size = to_of n b - from_of n b in
    cell_of (count_had bytes (from_of n b) size) size ∷ cells_from bytes n (suc b) k

unfoldable pub cells : ℕ → List ℕ → List Cell
unfolding cells_from
cells n [] = []
cells n (b ∷ bytes) = cells_from (b ∷ bytes) n 0 (buckets n)
