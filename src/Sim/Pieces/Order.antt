-- ===== src/Sim/Pieces/Order.antt =====
-- pieceOrder: each piece comes once.
use transmission_ui.Prelude.{
  ltb, leb, if◌then◌else◌, length, length-append, ℕ, zero, suc, ◌+◌, ◌-◌, ◌≡◌, refl, ap, ◌&&◌,
  arith,
}
use transmission_ui.Sim.Rand.{shuffle}
use transmission_ui.Sim.Rand.Shuffles.{
  occurrences, occurrences-append, occurrences-shuffle, length-shuffle,
}
use transmission_ui.Sim.Pieces.{range_from, head_size, piece_order}

occurrences-range_from :
    (k i n : ℕ) → occurrences k (range_from i n) ≡ (if leb i k && ltb k (i + n) then 1 else 0)
occurrences-range_from k i zero = ground arith
occurrences-range_from k i (suc n) = ground (arith, occurrences-range_from k (suc i) n)

length-range_from : (i n : ℕ) → length (range_from i n) ≡ n
length-range_from i zero = refl
length-range_from i (suc n) = ap suc (length-range_from (suc i) n)

-- The order has as many entries as there are pieces, and each piece occurs in it once.
pub piece_order_lem :
    (count seed : ℕ)
    → (length (piece_order count seed) ≡ count)
      × ((k : ℕ) → occurrences k (piece_order count seed) ≡ (if ltb k count then 1 else 0))
unfolding piece_order
piece_order_lem count seed =
    let head = head_size count in
    let rest = range_from head (count - head) in
    (
      omega (
        arith,
        length-append (range_from 0 head) (shuffle rest seed).0,
        length-shuffle rest seed,
        length-range_from 0 head,
        length-range_from head (count - head),
      ),
      λ k. ground (
        arith,
        occurrences-append k (range_from 0 head) (shuffle rest seed).0,
        occurrences-shuffle k rest seed,
        occurrences-range_from k 0 head,
        occurrences-range_from k head (count - head),
      ),
    )
