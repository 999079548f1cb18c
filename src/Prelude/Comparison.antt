-- ===== src/Prelude/Comparison.antt =====
-- Comparators as `Array.sort` takes them. Of the number that a comparator returns `sort` reads the sign,
-- so a comparison is one of three; NaN counts as 0.
use Prim.Native.Nat.{ℕ}
use mathlib.Core.Path.{◌≡◌}
use mathlib.Core.Bool.{Bool, true, false}
use mathlib.Core.List.{List, [], ◌∷◌}
use native.Mathlib.Omega.{arith}
use mathlib.Core.Logic.{inl, inr}
use transmission_ui.Prelude.Tests.{ltb, if◌then◌else◌, Bool-cases}
use transmission_ui.Prelude.Lists.{All}

pub data Sign : Type 0 where
  before same after : Sign

-- `-x`
abbrev pub flip : Sign → Sign
flip before = after
flip same = same
flip after = before

-- `x || y`
abbrev pub or_sign : Sign → Sign → Sign
or_sign before y = before
or_sign same y = y
or_sign after y = after

-- `a - b`
abbrev pub minus : ℕ → ℕ → Sign
minus a b = if ltb a b then before else if ltb b a then after else same

-- `x * dir` for a direction of 1 or -1.
abbrev pub directed : Bool → Sign → Sign
directed up x = if up then x else flip x

-- Whether the first may stand in front.
abbrev pub leads : Sign → Bool
leads before = true
leads same = true
leads after = false

or_sign-leads :
    (p q r p1 q1 r1 x y z : Sign)
    → (leads p ≡ true → leads q ≡ true → leads r ≡ true)
    → (leads q ≡ true → leads r1 ≡ true → leads p1 ≡ true)
    → (leads r1 ≡ true → leads p ≡ true → leads q1 ≡ true)
    → p1 ≡ flip p
    → q1 ≡ flip q
    → r1 ≡ flip r
    → (leads x ≡ true → leads y ≡ true → leads z ≡ true)
    → leads (or_sign p x) ≡ true
    → leads (or_sign q y) ≡ true
    → leads (or_sign r z) ≡ true
or_sign-leads p q r p1 q1 r1 x y z f g h ep eq er k l m = ground arith

module _ {ℓ} {A : Type ℓ} where
  -- A comparator that orders: swapping the sides flips it, and it is transitive.
  pub record IsConsistent (c : A → A → Sign) : Type ℓ where
    pub swaps : (a b : A) → c b a ≡ flip (c a b)
    pub chains : (a b d : A) → leads (c a b) ≡ true → leads (c b d) ≡ true → leads (c a d) ≡ true

  -- `xs.sort(c)`, which is stable.
  abbrev pub insert_by : (A → A → Sign) → A → List A → List A
  insert_by c x [] = x ∷ []
  insert_by c x (y ∷ ys) = if leads (c x y) then x ∷ y ∷ ys else y ∷ insert_by c x ys

  abbrev pub sort_by : (A → A → Sign) → List A → List A
  sort_by c [] = []
  sort_by c (x ∷ xs) = insert_by c x (sort_by c xs)

  -- One comparator, and where it says nothing the next.
  pub or_sign-IsConsistent :
      (c d : A → A → Sign)
      → IsConsistent c
      → IsConsistent d
      → IsConsistent (λ x y. or_sign (c x y) (d x y))
  or_sign-IsConsistent c d hc hd = record {
    swaps = λ a b. ground (arith, hc.swaps a b, hd.swaps a b);
    chains = λ x y z.
        or_sign-leads (c x y) (c y z) (c x z) (c y x) (c z y) (c z x) (d x y) (d y z) (d x z)
          (hc.chains x y z) (hc.chains y z x) (hc.chains z x y) (hc.swaps x y) (hc.swaps y z)
          (hc.swaps x z) (hd.chains x y z);
  }

  pub flip-IsConsistent : (c : A → A → Sign) → IsConsistent c → IsConsistent (λ x y. flip (c x y))
  flip-IsConsistent c h = record {
    swaps = λ a b. ground (arith, h.swaps a b);
    chains = λ x y z. ground (arith, h.chains z y x, h.swaps x y, h.swaps y z, h.swaps x z);
  }

  pub directed-IsConsistent :
      (up : Bool) (c : A → A → Sign) → IsConsistent c → IsConsistent (λ x y. directed up (c x y))
  directed-IsConsistent true c h = h
  directed-IsConsistent false c h = flip-IsConsistent c h

  pub minus-IsConsistent : (f : A → ℕ) → IsConsistent (λ x y. minus (f x) (f y))
  minus-IsConsistent f = record { swaps = λ a b. ground arith; chains = λ x y z h k. ground arith }

-- What holds of all elements holds after sorting.
module _ {ℓ κ} {A : Type ℓ} (Q : A → Type κ) where
  All-insert_by :
      (c : A → A → Sign) (x : A) (xs : List A) → Q x → All Q xs → All Q (insert_by c x xs)
  All-insert_by c x [] q h = (q, tt)
  All-insert_by c x (y ∷ ys) q (p, h) = elim (Bool-cases (leads (c x y))) [
    | inl first ↦ rw first (q, (p, h))
    | inr later ↦ rw later (p, All-insert_by c x ys q h)
  ]

  pub All-sort_by : (c : A → A → Sign) (xs : List A) → All Q xs → All Q (sort_by c xs)
  All-sort_by c [] h = tt
  All-sort_by c (x ∷ xs) (q, h) = All-insert_by c x (sort_by c xs) q (All-sort_by c xs h)
