-- ===== src/Sim/Pieces/Bits.antt =====
-- What the inspector reads of a bitfield is what the simulator wrote.
use Prim.Native.Nat.{bit_or}
use native.Mathlib.Nat.{zero-div}
use transmission_ui.Prelude.{
  ltb, ◌==◌, ltb→lt, ==_iff, Bool-cases, length, get_elem?, All, ℕ, zero, suc, ◌-◌, ◌/◌, ◌%◌, ◌^◌,
  ◌<◌, ◌≡◌, refl, sym, ap, inl, inr, Bool, true, false, not, ◌&&◌, ◌||◌, if◌then◌else◌, List, [],
  ◌∷◌, arith,
}
use transmission_ui.Prelude.Keyed.{nat_eq, text_eq_inst, contains}
use transmission_ui.Sim.Pieces.{or_at, zeros, set_bits}
use transmission_ui.Inspector.Pieces.{bit_of, have}

-- `p` at each number below `n`, by evaluation.
holds_to : (ℕ → Bool) → ℕ → Bool
holds_to p zero = true
holds_to p (suc last) = if p last then holds_to p last else false

holds_to-at : (p : ℕ → Bool) (n : ℕ) {x : ℕ} → x < n → holds_to p n ≡ true → p x ≡ true
unfolding holds_to
holds_to-at p zero lt all_hold = absurd (omega arith)
holds_to-at p (suc last) {x} lt all_hold = elim (Bool-cases (x == last)) [
  | inl at_end ↦ rw ((==_iff x last).0 at_end) (ground arith)
  | inr earlier ↦ holds_to-at p last (ground (arith, earlier)) (ground arith)
]

bool_eq : Bool → Bool → Bool
bool_eq true b = b
bool_eq false b = not b

bool_eq_to : (a b : Bool) → bool_eq a b ≡ true → a ≡ b
unfolding bool_eq
bool_eq_to true b h = sym h
bool_eq_to false b h = ground arith

-- A bit of a byte after `b | (0x80 >> r)`.
bit_ok : ℕ → ℕ → ℕ → Bool
unfolding bool_eq
bit_ok b r q =
    bool_eq (bit_or b (0x80 / 2 ^ r) / 2 ^ (7 - q) % 2 == 1)
      ((b / 2 ^ (7 - q) % 2 == 1) || (r == q))
    && ltb (bit_or b (0x80 / 2 ^ r)) 256

bit_table : holds_to (λ b. holds_to (λ r. holds_to (bit_ok b r) 8) 8) 256 ≡ true
unfolding holds_to bit_ok bool_eq
bit_table = refl

bit_ok_lem : (b r q : ℕ) → b < 256 → r < 8 → q < 8 → bit_ok b r q ≡ true
bit_ok_lem b r q hb hr hq = holds_to-at (bit_ok b r) 8 hq (
    holds_to-at (λ r. holds_to (bit_ok b r) 8) 8 hr
      (holds_to-at (λ b. holds_to (λ r. holds_to (bit_ok b r) 8) 8) 256 hb bit_table))

both_hold : (a b : Bool) → (a && b) ≡ true → (a ≡ true) × (b ≡ true)
both_hold a b h = ground arith

byte_stays : (b r : ℕ) → b < 256 → r < 8 → bit_or b (0x80 / 2 ^ r) < 256
unfolding bit_ok
byte_stays b r p hr = ltb→lt _ _ (both_hold _ _ (bit_ok_lem b r 0 p hr (omega arith))).1

set_bit :
    (b r q : ℕ)
    → b < 256
    → r < 8
    → q < 8
    → (bit_or b (0x80 / 2 ^ r) / 2 ^ (7 - q) % 2 == 1) ≡ ((b / 2 ^ (7 - q) % 2 == 1) || (r == q))
unfolding bit_ok
set_bit b r q p hr hq = bool_eq_to _ _ (both_hold _ _ (bit_ok_lem b r q p hr hq)).0

abbrev pub IsByte : ℕ → Type 0
IsByte b = b < 256

or_at-All :
    (a r : ℕ) (bytes : List ℕ)
    → r < 8
    → All IsByte bytes
    → All IsByte (or_at a (0x80 / 2 ^ r) bytes)
or_at-All a r [] hr h = tt
or_at-All zero r (b ∷ bytes) hr (p, h) = (byte_stays b r p hr, h)
or_at-All (suc a) r (b ∷ bytes) hr (p, h) = (p, or_at-All a r bytes hr h)

length-or_at : (a m : ℕ) (bytes : List ℕ) → length (or_at a m bytes) ≡ length bytes
length-or_at a m [] = refl
length-or_at zero m (b ∷ bytes) = refl
length-or_at (suc a) m (b ∷ bytes) = ap suc (length-or_at a m bytes)

-- Setting a bit sets that bit.
bit_of-or_at :
    (a c r q : ℕ) (bytes : List ℕ)
    → r < 8
    → q < 8
    → a < length bytes
    → All IsByte bytes
    → bit_of (get_elem? (or_at a (0x80 / 2 ^ r) bytes) c) q
      ≡ (bit_of (get_elem? bytes c) q || ((a == c) && (r == q)))
bit_of-or_at a c r q [] hr hq lt h = absurd (omega arith)
bit_of-or_at zero zero r q (b ∷ bytes) hr hq lt (p, h) = set_bit b r q p hr hq
bit_of-or_at zero (suc c) r q (b ∷ bytes) hr hq lt (p, h) = ground arith
bit_of-or_at (suc a) zero r q (b ∷ bytes) hr hq lt (p, h) = ground arith
bit_of-or_at (suc a) (suc c) r q (b ∷ bytes) hr hq lt (p, h) =
    ground (arith, bit_of-or_at a c r q bytes hr hq)

have-or_at :
    (k i : ℕ) (bytes : List ℕ)
    → k / 8 < length bytes
    → All IsByte bytes
    → have (or_at (k / 8) (0x80 / 2 ^ (k % 8)) bytes) i ≡ (have bytes i || (k == i))
unfolding have
have-or_at k i bytes lt h =
    ground
      (arith, bit_of-or_at (k / 8) (i / 8) (k % 8) (i % 8) bytes (omega arith) (omega arith) lt h)

-- Setting bits sets just these.
pub have-set_bits :
    (is bytes : List ℕ) (i : ℕ)
    → All (λ k. k / 8 < length bytes) is
    → All IsByte bytes
    → have (set_bits is bytes) i ≡ (have bytes i || contains i is)
unfolding set_bits
have-set_bits [] bytes i h b = ground arith
have-set_bits (k ∷ is) bytes i (p, h) b =
    let next = or_at (k / 8) (0x80 / 2 ^ (k % 8)) bytes in
    let kept : length next ≡ length bytes = length-or_at (k / 8) (0x80 / 2 ^ (k % 8)) bytes in
    let h1 : All (λ k. k / 8 < length next) is = rw kept h in
    let rest = have-set_bits is next i h1 (or_at-All (k / 8) (k % 8) bytes (omega arith) b) in
    ground (arith, rest, have-or_at k i bytes p b)

pub zeros-All : (n : ℕ) → All IsByte (zeros n)
zeros-All zero = tt
zeros-All (suc n) = (omega arith, zeros-All n)

pub length-zeros : (n : ℕ) → length (zeros n) ≡ n
length-zeros zero = refl
length-zeros (suc n) = ap suc (length-zeros n)

pub have-zeros : (n i : ℕ) → have (zeros n) i ≡ false
unfolding have
have-zeros n i = no_bit n (i / 8)
  where
    no_bit : (n c : ℕ) → bit_of (get_elem? (zeros n) c) (i % 8) ≡ false
    no_bit zero c = refl
    no_bit (suc n) zero = ground (arith, zero-div (2 ^ (7 - i % 8)))
    no_bit (suc n) (suc c) = no_bit n c
