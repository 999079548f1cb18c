-- ===== src/Sim/Pieces.antt =====
-- The pieces of a torrent in ui/sim/derive.ts: their order, the bitfield and the availability. The bitfield is
-- the list of its bytes, before base64. The cache of `pieceOrder` changes no result.
pub mod Order
pub mod Bits
pub mod Strip
use Prim.Native.Nat.{bit_xor, bit_or}
use transmission_ui.Prelude.{
  ltb, ◌==◌, if◌then◌else◌, length, take, get_elem?, ℕ, zero, suc, ◌+◌, ◌-◌, ◌/◌, ◌%◌, ◌^◌, min,
  max, ◌&&◌, none, some, List, [], ◌∷◌, ◌++◌,
}
use transmission_ui.Prelude.Int.{ℤ, pos, negsuc}
use transmission_ui.Types.Detail.{TorrentDetail}
use transmission_ui.Sim.Derive.{pieces_had}
use transmission_ui.Sim.Rand.{below, int, chance, set_at, shuffle, seed_of}

-- `n` numbers from `i`.
abbrev pub range_from : ℕ → ℕ → List ℕ
range_from i zero = []
range_from i (suc n) = i ∷ range_from (suc i) n

-- `Math.min(count, Math.max(1, Math.round(count * 0.02)))`
abbrev pub head_size : ℕ → ℕ
head_size count = min count (max 1 ((count + 25) / 50))

-- `pieceOrder`, `buildPieceOrder`
unfoldable pub piece_order : ℕ → ℕ → List ℕ
piece_order count seed =
    let head = head_size count in
    range_from 0 head ++ (shuffle (range_from head (count - head)) seed).0

-- `bytes[i >> 3] |= 0x80 >> (i & 7)`
abbrev pub or_at : ℕ → ℕ → List ℕ → List ℕ
or_at i mask [] = []
or_at zero mask (b ∷ bs) = bit_or b mask ∷ bs
or_at (suc i) mask (b ∷ bs) = b ∷ or_at i mask bs

abbrev pub zeros : ℕ → List ℕ
zeros zero = []
zeros (suc n) = 0 ∷ zeros n

unfoldable pub set_bits : List ℕ → List ℕ → List ℕ
set_bits [] bytes = bytes
set_bits (i ∷ is) bytes = set_bits is (or_at (i / 8) (0x80 / 2 ^ (i % 8)) bytes)

-- `piecesB64`
unfoldable pub piece_bytes : List ℕ → ℕ → List ℕ
unfolding set_bits pieces_had
piece_bytes order pct =
    let count = length order in
    set_bits (take (pieces_had count pct) order) (zeros ((count + 7) / 8))

-- The copies that peers have of each of `n` pieces: `base + r.int(-1, 1)`, not under 0.
unfoldable pub copies : ℕ → ℕ → ℕ → List ℤ × ℕ
copies base zero state = ([], state)
copies base (suc n) state =
    let (d, b) = below 3 state in
    let (rest, z) = copies base n (if base == 0 then state else b) in
    (pos (if base == 0 then 0 else base + d - 1) ∷ rest, z)

abbrev pub set_all : ℤ → List ℕ → List ℤ → List ℤ
set_all v [] out = out
set_all v (i ∷ is) out = set_all v is (set_at i v out)

-- `order[count - 1 - (h % count)]` for each `h` below the number of holes.
abbrev hole_pieces : List ℕ → List ℕ → List ℕ
hole_pieces order [] = []
hole_pieces order (h ∷ hs) = elim (get_elem? order (length order - 1 - h % length order)) [
  | none ↦ hole_pieces order hs
  | some i ↦ i ∷ hole_pieces order hs
]

unfoldable pub availability_of : List ℕ → ℕ → ℕ → ℕ → List ℤ
unfolding copies pieces_had
availability_of order pct swarm seed =
    let count = length order in
    let base = min 9 swarm in
    let (out, a) = copies base count seed in
    let (holed, b) = chance 500_000 a in
    let holes = (int 1 (max 1 ((count + 50) / 100)) b).0 in
    let with_holes =
      if ltb 0 base && holed
      then set_all (pos 0) (hole_pieces order (range_from 0 holes)) out
      else out in
    set_all (negsuc 0) (take (pieces_had count pct) order) with_holes

-- `refreshPieceMap`
unfoldable pub refresh_piece_map : ℕ → TorrentDetail → TorrentDetail
unfolding piece_order piece_bytes availability_of seed_of
refresh_piece_map swarm t =
    let seed = seed_of t.hash_string in
    let order = piece_order t.piece_count seed in
    if t.piece_count == 0 then record t { pieces = []; availability = [] } else record t {
      pieces = piece_bytes order t.percent_done;
      availability = availability_of order t.percent_done swarm (bit_xor seed 0x5bf03635);
    }
