-- ===== src/Prelude/Sets.antt =====
-- Laws of the `Set` operations: membership, distinctness, and counting.
use Prim.Native.Nat.{suc, ◌≤◌}
use mathlib.Core.Path.{◌≡◌, refl, sym, ◌∙◌}
use mathlib.Core.Logic.{inl, inr}
use mathlib.Core.Bool.{Bool, true, false, not, ◌&&◌, ◌||◌}
use mathlib.Core.List.{List, [], ◌∷◌, ◌++◌}
use native.Mathlib.Omega.{arith}
use transmission_ui.Prelude.Tests.{Bool-cases}
use transmission_ui.Prelude.Lists.{length, keep, append-nil, append_assoc}
use transmission_ui.Prelude.Keyed.{Eq, contains, add, delete, add_all, Nodup}

module _ {ℓ} {K : Type ℓ} ⦃e : Eq K⦄ where
  pub beq_refl : (k : K) → e.beq k k ≡ true
  beq_refl k = (e.beq_iff k k).1 refl

  pub contains-append :
      (k : K) (xs ys : List K) → contains k (xs ++ ys) ≡ (contains k xs || contains k ys)
  contains-append k [] ys = refl
  contains-append k (x ∷ xs) ys = ground (arith, contains-append k xs ys)

  pub contains-keep :
      (k : K) (p : K → Bool) (xs : List K) → contains k (keep p xs) ≡ (p k && contains k xs)
  contains-keep k p [] = ground arith
  contains-keep k p (x ∷ xs) = elim (Bool-cases (e.beq x k)) [
    | inl same ↦
        let q = (e.beq_iff x k).0 same in rw q (ground (arith, contains-keep k p xs, beq_refl k))
    | inr other ↦ ground (arith, contains-keep k p xs)
  ]

  pub contains-add : (k j : K) (xs : List K) → contains k (add j xs) ≡ (e.beq j k || contains k xs)
  contains-add k j xs = elim (Bool-cases (e.beq j k)) [
    | inl same ↦
        let q = (e.beq_iff j k).0 same in
        rw q (ground (arith, contains-append k xs (k ∷ []), beq_refl k))
    | inr other ↦ ground (arith, contains-append k xs (j ∷ []))
  ]

  pub contains-add_all :
      (k : K) (xs ys : List K) → contains k (add_all xs ys) ≡ (contains k xs || contains k ys)
  contains-add_all k xs [] = ground arith
  contains-add_all k xs (y ∷ ys) =
      ground (arith, contains-add_all k (add y xs) ys, contains-add k y xs)

  pub contains-delete :
      (k j : K) (xs : List K) → contains k (delete j xs) ≡ (not (e.beq j k) && contains k xs)
  contains-delete k j [] = ground arith
  contains-delete k j (x ∷ xs) =
      ground (arith, contains-delete k j xs, e.beq_iff x j, e.beq_iff x k, e.beq_iff j k)

  Nodup-snoc : (xs : List K) (k : K) → Nodup xs → contains k xs ≡ false → Nodup (xs ++ k ∷ [])
  Nodup-snoc [] k d h = (refl, tt)
  Nodup-snoc (x ∷ xs) k d h = (
    ground (arith, contains-append x xs (k ∷ []), e.beq_iff k x, e.beq_iff x k),
    Nodup-snoc xs k d.1 (ground arith),
  )

  pub add-Nodup : (k : K) (xs : List K) → Nodup xs → Nodup (add k xs)
  add-Nodup k xs d = elim (Bool-cases (contains k xs)) [
    | inl old ↦ rw old d
    | inr new ↦ rw new (Nodup-snoc xs k d new)
  ]

  pub add_all-Nodup : (xs ys : List K) → Nodup xs → Nodup (add_all xs ys)
  add_all-Nodup xs [] d = d
  add_all-Nodup xs (y ∷ ys) d = add_all-Nodup (add y xs) ys (add-Nodup y xs d)

  pub keep-Nodup : (p : K → Bool) (xs : List K) → Nodup xs → Nodup (keep p xs)
  keep-Nodup p [] d = tt
  keep-Nodup p (x ∷ xs) d = elim (Bool-cases (p x)) [
    | inl kept ↦ rw kept (ground (arith, contains-keep x p xs), keep-Nodup p xs d.1)
    | inr gone ↦ rw gone (keep-Nodup p xs d.1)
  ]

  pub delete-Nodup : (k : K) (xs : List K) → Nodup xs → Nodup (delete k xs)
  delete-Nodup k [] d = tt
  delete-Nodup k (x ∷ xs) d = elim (Bool-cases (e.beq x k)) [
    | inl gone ↦ rw gone (delete-Nodup k xs d.1)
    | inr kept ↦ rw kept (ground (arith, contains-delete x k xs), delete-Nodup k xs d.1)
  ]

  -- All that is in `xs` is in `ys`.
  abbrev pub IsIncluded : List K → List K → Type ℓ
  IsIncluded xs ys = (k : K) → contains k xs ≡ true → contains k ys ≡ true

  length-delete-le : (k : K) (xs : List K) → length (delete k xs) ≤ length xs
  length-delete-le k [] = omega arith
  length-delete-le k (x ∷ xs) = ground (arith, length-delete-le k xs)

  length-delete-lt :
      (k : K) (xs : List K) → contains k xs ≡ true → suc (length (delete k xs)) ≤ length xs
  length-delete-lt k [] h = ground arith
  length-delete-lt k (x ∷ xs) h = ground (arith, length-delete-lt k xs, length-delete-le k xs)

  IsIncluded-delete :
      (k : K) (xs ys : List K)
      → contains k xs ≡ false
      → IsIncluded xs ys
      → IsIncluded xs (delete k ys)
  IsIncluded-delete k xs ys out h j m =
      ground (arith, contains-delete j k ys, h j m, e.beq_iff k j, m, out)

  -- Distinct elements of a list are no more than the list has.
  pub length-le_of_included : (xs ys : List K) → Nodup xs → IsIncluded xs ys → length xs ≤ length ys
  length-le_of_included [] ys d h = omega arith
  length-le_of_included (x ∷ xs) ys d h =
      let here : contains x ys ≡ true = h x (ground (arith, beq_refl x)) in
      let rest =
        length-le_of_included xs (delete x ys) d.1
          (IsIncluded-delete x xs ys d.0 (λ j m. h j (ground (arith, m)))) in
      omega (arith, rest, length-delete-lt x ys here)

  -- Distinct elements of a list, as many as it has, are all of it.
  pub IsIncluded-of_length :
      (xs ys : List K) → Nodup xs → IsIncluded xs ys → length xs ≡ length ys → IsIncluded ys xs
  IsIncluded-of_length xs ys d h same k m = elim (Bool-cases (contains k xs)) [
    | inl here ↦ here
    | inr out ↦ absurd (
        omega (
          arith,
          same,
          length-le_of_included xs (delete k ys) d (IsIncluded-delete k xs ys out h),
          length-delete-lt k ys m,
        ))
  ]

  Nodup-middle : (xs : List K) (y : K) (ys : List K) → Nodup (xs ++ y ∷ ys) → contains y xs ≡ false
  Nodup-middle [] y ys d = refl
  Nodup-middle (x ∷ xs) y ys d = ground (
    arith,
    Nodup-middle xs y ys d.1,
    contains-append x xs (y ∷ ys),
    e.beq_iff x y,
    e.beq_iff y x,
    d.0,
  )

  -- Adding what is new and distinct appends it.
  add_all-append_distinct : (xs ys : List K) → Nodup (xs ++ ys) → add_all xs ys ≡ xs ++ ys
  add_all-append_distinct xs [] d = sym (append-nil xs)
  add_all-append_distinct xs (y ∷ ys) d =
      let d' : Nodup ((xs ++ y ∷ []) ++ ys) = rw (append_assoc xs (y ∷ []) ys) d in
      rw (Nodup-middle xs y ys d)
        (add_all-append_distinct (xs ++ y ∷ []) ys d' ∙ append_assoc xs (y ∷ []) ys)

  pub add_all_distinct : (xs : List K) → Nodup xs → add_all [] xs ≡ xs
  add_all_distinct xs d = add_all-append_distinct [] xs d

  pub add_all-append : (xs ys zs : List K) → add_all xs (ys ++ zs) ≡ add_all (add_all xs ys) zs
  add_all-append xs [] zs = refl
  add_all-append xs (y ∷ ys) zs = add_all-append (add y xs) ys zs

  -- What was there keeps its place in front.
  pub add_all-prefix : (xs ys : List K) → (rest : List K) × (add_all xs ys ≡ xs ++ rest)
  add_all-prefix xs [] = ([], sym (append-nil xs))
  add_all-prefix xs (y ∷ ys) = elim (Bool-cases (contains y xs)) [
    | inl old ↦ let (rest, h) = add_all-prefix xs ys in (rest, rw old h)
    | inr new ↦
        let (rest, h) = add_all-prefix (xs ++ y ∷ []) ys in
        (y ∷ rest, rw new (h ∙ append_assoc xs (y ∷ []) rest))
  ]
