-- ===== src/Prelude/Sorting.antt =====
-- Sorting keeps the elements: their number, which there are, and that they are distinct.
use Prim.Native.Nat.{suc}
use mathlib.Core.Path.{◌≡◌, refl, ap, ◌∙◌}
use mathlib.Core.Logic.{inl, inr}
use mathlib.Core.Bool.{false, ◌||◌}
use mathlib.Core.List.{List, [], ◌∷◌, map}
use native.Mathlib.Omega.{arith}
use transmission_ui.Prelude.Tests.{Bool-cases}
use transmission_ui.Prelude.Lists.{length}
use transmission_ui.Prelude.Keyed.{Eq, contains, Nodup}
use transmission_ui.Prelude.Comparison.{Sign, leads, insert_by, sort_by}

module _ {ℓ} {A : Type ℓ} (c : A → A → Sign) where
  length-insert_by : (x : A) (xs : List A) → length (insert_by c x xs) ≡ suc (length xs)
  length-insert_by x [] = refl
  length-insert_by x (y ∷ ys) = ground (arith, length-insert_by x ys)

  pub length-sort_by : (xs : List A) → length (sort_by c xs) ≡ length xs
  length-sort_by [] = refl
  length-sort_by (x ∷ xs) = length-insert_by x (sort_by c xs) ∙ ap suc (length-sort_by xs)

module _ {ℓ κ} {A : Type ℓ} {K : Type κ} ⦃e : Eq K⦄ (c : A → A → Sign) (f : A → K) where
  contains-insert_by :
      (k : K) (x : A) (xs : List A)
      → contains k (map f (insert_by c x xs)) ≡ (e.beq (f x) k || contains k (map f xs))
  contains-insert_by k x [] = refl
  contains-insert_by k x (y ∷ ys) = ground (arith, contains-insert_by k x ys)

  pub contains-sort_by :
      (k : K) (xs : List A) → contains k (map f (sort_by c xs)) ≡ contains k (map f xs)
  contains-sort_by k [] = refl
  contains-sort_by k (x ∷ xs) =
      ground (arith, contains-insert_by k x (sort_by c xs), contains-sort_by k xs)

  insert_by-Nodup :
      (x : A) (xs : List A)
      → contains (f x) (map f xs) ≡ false
      → Nodup (map f xs)
      → Nodup (map f (insert_by c x xs))
  insert_by-Nodup x [] out d = (refl, tt)
  insert_by-Nodup x (y ∷ ys) out d = elim (Bool-cases (leads (c x y))) [
    | inl first ↦ rw first (out, d)
    | inr later ↦ rw later (
      ground (
        arith,
        contains-insert_by (f y) x ys,
        out,
        d.0,
        e.beq_iff (f x) (f y),
        e.beq_iff (f y) (f x),
      ),
      insert_by-Nodup x ys (ground arith) d.1,
    )
  ]

  pub sort_by-Nodup : (xs : List A) → Nodup (map f xs) → Nodup (map f (sort_by c xs))
  sort_by-Nodup [] d = tt
  sort_by-Nodup (x ∷ xs) d =
      insert_by-Nodup x (sort_by c xs) (contains-sort_by (f x) xs ∙ d.0) (sort_by-Nodup xs d.1)
