-- ===== src/Prelude/Keyed.antt =====
-- `Map` and `Set` of the source: association lists and lists in insertion order, over a key type
-- with an equality test. Setting a key that is there keeps its place.
use Prim.Native.Nat.{ℕ}
use mathlib.Core.Path.{◌≡◌}
use mathlib.Core.Logic.{◌↔◌}
use mathlib.Core.Bool.{Bool, true, false, ◌||◌}
use mathlib.Core.List.{List, [], ◌∷◌, ◌++◌, map}
use mathlib.Core.Option.{Option, none, some}
use transmission_ui.Prelude.Tests.{◌==◌, ==_iff, if◌then◌else◌}
use transmission_ui.Prelude.Texts.{Text, text_eq, text_eq_iff}

pub record Eq {ℓ} (A : Type ℓ) : Type ℓ where
  pub beq : A → A → Bool
  pub beq_iff : (a b : A) → (beq a b ≡ true) ↔ (a ≡ b)

instance abbrev pub nat_eq : Eq ℕ
nat_eq = record { beq = ◌==◌; beq_iff = ==_iff }

instance abbrev pub text_eq_inst : Eq Text
text_eq_inst = record { beq = text_eq; beq_iff = text_eq_iff }

module _ {ℓ} {K : Type ℓ} ⦃e : Eq K⦄ where
  -- `set.has(k)`, `xs.includes(k)`
  abbrev pub contains : K → List K → Bool
  contains k [] = false
  contains k (j ∷ js) = e.beq j k || contains k js

  -- `set.add(k)`
  abbrev pub add : K → List K → List K
  add k js = if contains k js then js else js ++ k ∷ []

  -- `set.delete(k)`
  abbrev pub delete : K → List K → List K
  delete k [] = []
  delete k (j ∷ js) = if e.beq j k then delete k js else j ∷ delete k js

  -- `new Set(xs)`, in insertion order, added to what is already there.
  abbrev pub add_all : List K → List K → List K
  add_all js [] = js
  add_all js (k ∷ ks) = add_all (add k js) ks

  abbrev pub Nodup : List K → Type 0
  Nodup [] = Unit {0}
  Nodup (j ∷ js) = (contains j js ≡ false) × Nodup js

module _ {ℓ κ} {K : Type ℓ} {V : Type κ} ⦃e : Eq K⦄ where
  -- `m.get(k)`
  abbrev pub lookup : K → List (K × V) → Option V
  lookup k [] = none
  lookup k ((j, v) ∷ m) = if e.beq j k then some v else lookup k m

  -- `m.set(k, v)`
  abbrev pub insert : K → V → List (K × V) → List (K × V)
  insert k v [] = (k, v) ∷ []
  insert k v ((j, w) ∷ m) = if e.beq j k then (j, v) ∷ m else (j, w) ∷ insert k v m

  -- `m.delete(k)`
  abbrev pub erase : K → List (K × V) → List (K × V)
  erase k [] = []
  erase k ((j, w) ∷ m) = if e.beq j k then erase k m else (j, w) ∷ erase k m

abbrev pub keys {ℓ κ} : {K : Type ℓ} {V : Type κ} → List (K × V) → List K
keys = map (λ b. b.0)

abbrev pub values {ℓ κ} : {K : Type ℓ} {V : Type κ} → List (K × V) → List V
values = map (λ b. b.1)
