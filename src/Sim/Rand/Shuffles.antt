-- ===== src/Sim/Rand/Shuffles.antt =====
-- A shuffle keeps the items, and a draw stays in its range.
use native.Mathlib.Nat.{div-lt_iff_lt-mul, mod-lt}
use transmission_ui.Prelude.{
  ◌==◌, if◌then◌else◌, Option-cases, length, get_elem?, ℕ, zero, suc, ◌+◌, ◌-◌, ◌*◌, ◌/◌, ◌≤◌, ◌<◌,
  ◌≡◌, refl, ap, ◌∙◌, inl, inr, some, List, [], ◌∷◌, ◌++◌, arith,
}
use transmission_ui.Sim.Rand.{word, next, below, int, set_at, exchange, shuffle_from, shuffle}

abbrev pub occurrences : ℕ → List ℕ → ℕ
occurrences k [] = 0
occurrences k (x ∷ xs) = (if x == k then 1 else 0) + occurrences k xs

scaled-lt : (v n : ℕ) → v < word → 0 < n → v * n / word < n
scaled-lt v n h p = (div-lt_iff_lt-mul {k = word} {x = v * n} {y = n} (omega arith)).1 (grind arith)

pub below-lt : (n state : ℕ) → 0 < n → (below n state).0 < n
unfolding below next
below-lt n state h = scaled-lt _ n (mod-lt _ (omega arith)) h

pub int-within :
    (lo hi state : ℕ) → lo ≤ hi → (lo ≤ (int lo hi state).0) × ((int lo hi state).0 ≤ hi)
unfolding int
int-within lo hi state h =
    let small = below-lt (hi - lo + 1) state (omega arith) in (omega arith, omega (arith, small, h))

pub occurrences-append :
    (k : ℕ) (xs ys : List ℕ) → occurrences k (xs ++ ys) ≡ occurrences k xs + occurrences k ys
occurrences-append k [] ys = omega arith
occurrences-append k (x ∷ xs) ys = ground (arith, occurrences-append k xs ys)

-- Writing `y` where `x` stood.
occurrences-set_at :
    (k i x y : ℕ) (xs : List ℕ)
    → get_elem? xs i ≡ some x
    → occurrences k (set_at i y xs) + (if x == k then 1 else 0)
      ≡ occurrences k xs + (if y == k then 1 else 0)
occurrences-set_at k i x y [] e = ground arith
occurrences-set_at k zero x y (z ∷ xs) e = ground arith
occurrences-set_at k (suc i) x y (z ∷ xs) e = ground (arith, occurrences-set_at k i x y xs e)

length-set_at : (i y : ℕ) (xs : List ℕ) → length (set_at i y xs) ≡ length xs
length-set_at i y [] = refl
length-set_at zero y (z ∷ xs) = refl
length-set_at (suc i) y (z ∷ xs) = ap suc (length-set_at i y xs)

get_elem?-set_at :
    (i j y : ℕ) (xs : List ℕ) → get_elem? xs j ≡ some y → get_elem? (set_at i y xs) j ≡ some y
get_elem?-set_at i j y [] e = e
get_elem?-set_at zero zero y (z ∷ xs) e = refl
get_elem?-set_at zero (suc j) y (z ∷ xs) e = e
get_elem?-set_at (suc i) zero y (z ∷ xs) e = e
get_elem?-set_at (suc i) (suc j) y (z ∷ xs) e = get_elem?-set_at i j y xs e

record SameItems (xs ys : List ℕ) : Type 0 where
  counts : (k : ℕ) → occurrences k xs ≡ occurrences k ys
  lengths : length xs ≡ length ys

exchange-SameItems : (i j : ℕ) (xs : List ℕ) → SameItems (exchange i j xs) xs
exchange-SameItems i j xs = elim (Option-cases (get_elem? xs i)) [
  | inl out ↦ rw (out, exchange) (record { counts = λ k. refl; lengths = refl })
  | inr (x, at_i) ↦ elim (Option-cases (get_elem? xs j)) [
    | inl out ↦ rw (at_i, out, exchange) (record { counts = λ k. refl; lengths = refl })
    | inr (y, at_j) ↦
        rw (at_i, at_j, exchange)
          (record {
            counts = λ k. omega (
              arith,
              occurrences-set_at k i x y xs at_i,
              occurrences-set_at k j y x (set_at i y xs) (get_elem?-set_at i j y xs at_j),
            );
            lengths = length-set_at j x (set_at i y xs) ∙ length-set_at i y xs;
          })
  ]
]

shuffle_from-SameItems :
    (i : ℕ) (xs : List ℕ) (state : ℕ) → SameItems (shuffle_from i xs state).0 xs
unfolding shuffle_from
shuffle_from-SameItems zero xs state = record { counts = λ k. refl; lengths = refl }
shuffle_from-SameItems (suc i) xs state =
    let (j, a) = below (suc i + 1) state in
    let rest = shuffle_from-SameItems i (exchange (suc i) j xs) a in
    let first = exchange-SameItems (suc i) j xs in
    record { counts = λ k. rest.counts k ∙ first.counts k; lengths = rest.lengths ∙ first.lengths }

pub occurrences-shuffle :
    (k : ℕ) (xs : List ℕ) (state : ℕ) → occurrences k (shuffle xs state).0 ≡ occurrences k xs
unfolding shuffle
occurrences-shuffle k xs state = (shuffle_from-SameItems (length xs - 1) xs state).counts k

pub length-shuffle : (xs : List ℕ) (state : ℕ) → length (shuffle xs state).0 ≡ length xs
unfolding shuffle
length-shuffle xs state = (shuffle_from-SameItems (length xs - 1) xs state).lengths
