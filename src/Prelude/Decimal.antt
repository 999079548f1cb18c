-- ===== src/Prelude/Decimal.antt =====
-- `String(n)` and its inverse on the digits: decimal numerals of the natural numbers.
use Prim.Native.Nat.{ℕ, zero, suc, ◌+◌, ◌-◌, ◌*◌, ◌/◌, ◌%◌, ◌<◌}
use mathlib.Core.Path.{◌≡◌, refl, ap, ◌∙◌}
use mathlib.Core.Logic.{inl, inr}
use mathlib.Core.Bool.{Bool, true, false, ◌&&◌}
use mathlib.Core.List.{[], ◌∷◌, ◌++◌}
use mathlib.Core.Option.{Option, none, some}
use native.Mathlib.Omega.{arith}
use transmission_ui.Prelude.Tests.{ltb, leb, if◌then◌else◌, Bool-cases}
use transmission_ui.Prelude.Texts.{Text, codes, is_empty}

abbrev pub is_digit : ℕ → Bool
is_digit c = leb b'0' c && leb c b'9'

show_fuel : ℕ → ℕ → Text
show_fuel zero n = []
show_fuel (suc f) n = elim (ltb n 10) [
  | true ↦ (b'0' + n) ∷ []
  | false ↦ show_fuel f (n / 10) ++ (b'0' + n % 10) ∷ []
]

-- The numeral has at most `n + 1` digits.
unfoldable pub show : ℕ → Text
unfolding show_fuel
show n = show_fuel (suc n) n

-- The digits of a text read from the left, `none` at another character.
unfoldable pub read_from : ℕ → Text → Option ℕ
read_from acc [] = some acc
read_from acc (c ∷ s) = if is_digit c then read_from (acc * 10 + (c - b'0')) s else none

read_from-append :
    (acc : ℕ) (s : Text) (c n : ℕ)
    → read_from acc s ≡ some n
    → is_digit c ≡ true
    → read_from acc (s ++ c ∷ []) ≡ some (n * 10 + (c - b'0'))
unfolding read_from
read_from-append acc [] c n h d = ground arith
read_from-append acc (x ∷ s) c n h d =
    ground (arith, read_from-append (acc * 10 + (x - b'0')) s c n)

read_from-show_fuel : (f n : ℕ) → n < f → read_from 0 (show_fuel f n) ≡ some n
unfolding show_fuel read_from
read_from-show_fuel zero n h = elim h [ ]
read_from-show_fuel (suc f) n h = elim (Bool-cases (ltb n 10)) [
  | inl small ↦ rw (small, show_fuel) (ground arith)
  | inr big ↦
      let ih : read_from 0 (show_fuel f (n / 10)) ≡ some (n / 10) =
        read_from-show_fuel f (n / 10) (ground arith) in
      rw (big, show_fuel)
        (read_from-append 0 (show_fuel f (n / 10)) (b'0' + n % 10) (n / 10) ih (ground arith)
          ∙ ap some (omega arith))
]

-- Reading back what `show` wrote.
pub read_from-show : (n : ℕ) → read_from 0 (show n) ≡ some n
unfolding show
read_from-show n = read_from-show_fuel (suc n) n (omega arith)

show_test : show 1203 ≡ codes "1203"
unfolding show
show_test = refl

snoc-ne-empty : (s : Text) (c : ℕ) → is_empty (s ++ c ∷ []) ≡ false
snoc-ne-empty [] c = refl
snoc-ne-empty (d ∷ s) c = refl

show_fuel-ne-empty : (f n : ℕ) → is_empty (show_fuel (suc f) n) ≡ false
unfolding show_fuel
show_fuel-ne-empty f n = elim (Bool-cases (ltb n 10)) [
  | inl small ↦ rw (small, is_empty)
  | inr big ↦ rw (big, is_empty) (snoc-ne-empty (show_fuel f (n / 10)) (b'0' + n % 10))
]

pub show-ne-empty : (n : ℕ) → is_empty (show n) ≡ false
unfolding show
show-ne-empty n = show_fuel-ne-empty n n
