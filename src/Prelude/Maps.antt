-- ===== src/Prelude/Maps.antt =====
-- Laws of the `Map` operations: what a lookup finds after an update, and distinct keys.
use mathlib.Core.Path.{◌≡◌, refl}
use mathlib.Core.Logic.{inl, inr}
use mathlib.Core.List.{List, [], ◌∷◌}
use mathlib.Core.Option.{none, some}
use native.Mathlib.Omega.{arith}
use transmission_ui.Prelude.Tests.{if◌then◌else◌, Bool-cases, is_some}
use transmission_ui.Prelude.Lists.{All}
use transmission_ui.Prelude.Keyed.{Eq, contains, Nodup, lookup, insert, erase, keys}

module _ {ℓ κ} {K : Type ℓ} {V : Type κ} ⦃e : Eq K⦄ where
  pub lookup-insert :
      (k j : K) (v : V) (m : List (K × V))
      → lookup k (insert j v m) ≡ (if e.beq j k then some v else lookup k m)
  lookup-insert k j v [] = refl
  lookup-insert k j v ((i, w) ∷ m) =
      ground (arith, lookup-insert k j v m, e.beq_iff i j, e.beq_iff i k, e.beq_iff j k)

  pub lookup-erase :
      (k j : K) (m : List (K × V)) → lookup k (erase j m) ≡ (if e.beq j k then none else lookup k m)
  lookup-erase k j [] = ground arith
  lookup-erase k j ((i, w) ∷ m) =
      ground (arith, lookup-erase k j m, e.beq_iff i j, e.beq_iff i k, e.beq_iff j k)

  pub contains-keys : (k : K) (m : List (K × V)) → contains k (keys m) ≡ is_some (lookup k m)
  contains-keys k [] = refl
  contains-keys k ((j, w) ∷ m) = ground (arith, contains-keys k m)

  pub insert-Nodup :
      (k : K) (v : V) (m : List (K × V)) → Nodup (keys m) → Nodup (keys (insert k v m))
  insert-Nodup k v [] d = (refl, tt)
  insert-Nodup k v ((j, w) ∷ m) d = elim (Bool-cases (e.beq j k)) [
    | inl same ↦ rw same d
    | inr other ↦ rw other (
      ground (
        arith,
        contains-keys j (insert k v m),
        contains-keys j m,
        lookup-insert j k v m,
        e.beq_iff j k,
        e.beq_iff k j,
      ),
      insert-Nodup k v m d.1,
    )
  ]

  pub erase-Nodup : (k : K) (m : List (K × V)) → Nodup (keys m) → Nodup (keys (erase k m))
  erase-Nodup k [] d = tt
  erase-Nodup k ((j, w) ∷ m) d = elim (Bool-cases (e.beq j k)) [
    | inl same ↦ rw same (erase-Nodup k m d.1)
    | inr other ↦ rw other (
      ground (
        arith,
        contains-keys j (erase k m),
        contains-keys j m,
        lookup-erase j k m,
        e.beq_iff j k,
        e.beq_iff k j,
      ),
      erase-Nodup k m d.1,
    )
  ]

-- What holds of each key with its value holds of the entries.
module _ {ℓ κ μ} {K : Type ℓ} {V : Type κ} ⦃e : Eq K⦄ (P : K → V → Type μ) where
  pub All-lookups :
      (m : List (K × V))
      → Nodup (keys m)
      → ((k : K) (v : V) → lookup k m ≡ some v → P k v)
      → All (λ b. P (b.0) (b.1)) m
  All-lookups [] d h = tt
  All-lookups ((j, w) ∷ m) (fresh, d) h = (
    h j w (ground (arith, e.beq_iff j j)),
    All-lookups m d (λ k v q.
        h k v (ground (arith, q, fresh, contains-keys k m, contains-keys j m, e.beq_iff j k))),
  )
