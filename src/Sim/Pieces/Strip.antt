-- ===== src/Sim/Pieces/Strip.antt =====
-- The bitfield of piecesB64, as the strip of the inspector reads it.
use transmission_ui.Prelude.{
  ltb, leb, if◌then◌else◌, ==_iff, ==_refl, length, take, All, ℕ, zero, suc, ◌+◌, ◌/◌, ◌≤◌, ◌<◌,
  ◌≡◌, refl, ap, ◌∙◌, false, ◌&&◌, List, [], ◌∷◌, arith,
}
use transmission_ui.Prelude.Keyed.{nat_eq, text_eq_inst, contains}
use transmission_ui.Sim.Derive.{pieces_had}
use transmission_ui.Sim.Rand.Shuffles.{occurrences}
use transmission_ui.Sim.Pieces.{piece_order, zeros, piece_bytes}
use transmission_ui.Sim.Pieces.Order.{piece_order_lem}
use transmission_ui.Sim.Pieces.Bits.{have-set_bits, zeros-All, length-zeros, have-zeros}
use transmission_ui.Inspector.Pieces.{have, count_had}

-- What each entry of a list of pieces is.
abbrev IsPieces : ℕ → List ℕ → Type 0
IsPieces count order = (k : ℕ) → occurrences k order ≤ (if ltb k count then 1 else 0)

contains-occurrences : (k : ℕ) (xs : List ℕ) → contains k xs ≡ ltb 0 (occurrences k xs)
contains-occurrences k [] = ground arith
contains-occurrences k (x ∷ xs) = ground (arith, contains-occurrences k xs)

IsPieces-tail : (count x : ℕ) (xs : List ℕ) → IsPieces count (x ∷ xs) → IsPieces count xs
IsPieces-tail count x xs h k = ground (arith, h k)

IsPieces-head :
    (count x : ℕ) (xs : List ℕ) → IsPieces count (x ∷ xs) → (x < count) × (contains x xs ≡ false)
IsPieces-head count x xs h = ground (arith, h x, contains-occurrences x xs, ==_refl x)

occurrences-take-le : (k n : ℕ) (xs : List ℕ) → occurrences k (take n xs) ≤ occurrences k xs
occurrences-take-le k zero xs = omega arith
occurrences-take-le k (suc n) [] = omega arith
occurrences-take-le k (suc n) (x ∷ xs) = omega (arith, occurrences-take-le k n xs)

IsPieces-take : (count n : ℕ) (xs : List ℕ) → IsPieces count xs → IsPieces count (take n xs)
IsPieces-take count n xs h k = omega (arith, h k, occurrences-take-le k n xs)

-- The places `i` to `i + n` that a list has.
tally : List ℕ → ℕ → ℕ → ℕ
tally xs i zero = 0
tally xs i (suc n) = (if contains i xs then 1 else 0) + tally xs (suc i) n

tally-none : (i n : ℕ) → tally [] i n ≡ 0
unfolding tally
tally-none i zero = refl
tally-none i (suc n) = omega (arith, tally-none (suc i) n)

tally-cons :
    (x : ℕ) (xs : List ℕ) (i n : ℕ)
    → contains x xs ≡ false
    → tally (x ∷ xs) i n ≡ tally xs i n + (if leb i x && ltb x (i + n) then 1 else 0)
unfolding tally
tally-cons x xs i zero out = ground arith
tally-cons x xs i (suc n) out =
    ground (arith, tally-cons x xs (suc i) n, λ (e : x ≡ i). ap (λ j. contains j xs) e, ==_iff x i)

tally-length : (count : ℕ) (xs : List ℕ) → IsPieces count xs → tally xs 0 count ≡ length xs
tally-length count [] h = tally-none 0 count
tally-length count (x ∷ xs) h = ground (
  arith,
  tally-cons x xs 0 count,
  tally-length count xs (IsPieces-tail count x xs h),
  IsPieces-head count x xs h,
)

count_had-tally :
    (bytes xs : List ℕ) (i n : ℕ)
    → ((j : ℕ) → have bytes j ≡ contains j xs)
    → count_had bytes i n ≡ tally xs i n
unfolding count_had tally
count_had-tally bytes xs i zero h = refl
count_had-tally bytes xs i (suc n) h = ground (arith, h i, count_had-tally bytes xs (suc i) n h)

length-take : (n : ℕ) (xs : List ℕ) → n ≤ length xs → length (take n xs) ≡ n
length-take zero xs h = refl
length-take (suc n) [] h = absurd (omega arith)
length-take (suc n) (x ∷ xs) h = ap suc (length-take n xs (omega arith))

All-bytes : (count : ℕ) (xs : List ℕ) → IsPieces count xs → All (λ k. k / 8 < (count + 7) / 8) xs
All-bytes count [] h = tt
All-bytes count (x ∷ xs) h =
    let here = (IsPieces-head count x xs h).0 in
    (omega arith, All-bytes count xs (IsPieces-tail count x xs h))

pieces_had-le : (count pct : ℕ) → pieces_had count pct ≤ count
unfolding pieces_had
pieces_had-le count pct = omega arith

-- The bitfield that the simulator writes has, as the inspector reads it, the first `pieces_had` pieces of the order
-- and no others, and they are that many.
pub have-piece_bytes :
    (count seed pct : ℕ)
    → (let order = piece_order count seed in
        let bytes = piece_bytes order pct in
        ((i : ℕ) → have bytes i ≡ contains i (take (pieces_had count pct) order))
        × (count_had bytes 0 count ≡ pieces_had count pct))
unfolding piece_bytes
have-piece_bytes count seed pct =
    (read, count_had-tally _ had 0 count read ∙ (tally-length count had pieces ∙ long))
  where
    order : List ℕ
    order = piece_order count seed

    had : List ℕ
    had = take (pieces_had count pct) order

    all : length order ≡ count
    all = (piece_order_lem count seed).0

    pieces : IsPieces count had
    pieces =
        IsPieces-take count (pieces_had count pct) order
          (λ k. omega (arith, (piece_order_lem count seed).1 k))

    long : length had ≡ pieces_had count pct
    long = length-take (pieces_had count pct) order (omega (arith, all, pieces_had-le count pct))

    read : (i : ℕ) → have (piece_bytes order pct) i ≡ contains i had
    read i =
        let m = (count + 7) / 8 in
        let in_range : All (λ k. k / 8 < length (zeros m)) had =
          rw (length-zeros m) (All-bytes count had pieces) in
        let written = have-set_bits had (zeros m) i in_range (zeros-All m) in
        rw all (ground (arith, written, have-zeros m i))
