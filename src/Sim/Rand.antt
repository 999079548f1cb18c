-- ===== src/Sim/Rand.antt =====
-- ui/sim/rand.ts: the seeded generator. Its state is a 32-bit number; each draw returns the fraction's
-- numerator over 2^32 with the next state. `hashOf` is a digest of Node's and is not modelled.
pub mod Shuffles
use Prim.Native.Nat.{bit_xor, bit_or}
use transmission_ui.Prelude.{
  ltb, length, get_elem?, Text, ℕ, zero, suc, ◌+◌, ◌-◌, ◌*◌, ◌/◌, ◌%◌, ◌^◌, Bool, none, some, List,
  [], ◌∷◌,
}

abbrev pub word : ℕ
word = 2 ^ 32

-- `Math.imul`, as an unsigned word.
abbrev imul : ℕ → ℕ → ℕ
imul a b = a * b % word

-- `rng`
unfoldable pub next : ℕ → ℕ × ℕ
next state =
    let a = (state + 0x6d2b79f5) % word in
    let t = imul (bit_xor a (a / 2 ^ 15)) (bit_or a 1) in
    let u = bit_xor t ((t + imul (bit_xor t (t / 2 ^ 7)) (bit_or t 61)) % word) in
    (bit_xor u (u / 2 ^ 14) % word, a)

-- `r.int(0, n - 1)`, and `Math.floor(next() * n)`
unfoldable pub below : ℕ → ℕ → ℕ × ℕ
unfolding next
below n state = let (v, a) = next state in (v * n / word, a)

-- `r.int(lo, hi)`
unfoldable pub int : ℕ → ℕ → ℕ → ℕ × ℕ
unfolding below
int lo hi state = let (v, a) = below (hi - lo + 1) state in (lo + v, a)

-- `r.chance(p)` for a chance in millionths.
unfoldable pub chance : ℕ → ℕ → Bool × ℕ
unfolding next
chance p state = let (v, a) = next state in (ltb (v * 1_000_000) (p * word), a)

module _ {ℓ} {A : Type ℓ} where
  -- `out[i] = x`
  abbrev pub set_at : ℕ → A → List A → List A
  set_at i x [] = []
  set_at zero x (y ∷ ys) = x ∷ ys
  set_at (suc i) x (y ∷ ys) = y ∷ set_at i x ys

  -- `const t = out[i]; out[i] = out[j]; out[j] = t`
  abbrev pub exchange : ℕ → ℕ → List A → List A
  exchange i j xs = elim (get_elem? xs i) [
    | none ↦ xs
    | some x ↦ elim (get_elem? xs j) [ none ↦ xs | some y ↦ set_at j x (set_at i y xs) ]
  ]

  -- `for (let i = out.length - 1; i > 0; i--)`
  unfoldable pub shuffle_from : ℕ → List A → ℕ → List A × ℕ
  unfolding below
  shuffle_from zero xs state = (xs, state)
  shuffle_from (suc i) xs state =
      let (j, a) = below (suc i + 1) state in shuffle_from i (exchange (suc i) j xs) a

  unfoldable pub shuffle : List A → ℕ → List A × ℕ
  unfolding shuffle_from
  shuffle xs state = shuffle_from (length xs - 1) xs state

abbrev hash_each : ℕ → Text → ℕ
hash_each h [] = h
hash_each h (c ∷ s) = hash_each (imul (bit_xor h c) 0x01000193) s

unfoldable pub seed_of : Text → ℕ
seed_of s = hash_each 0x811c9dc5 s
