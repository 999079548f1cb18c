-- ===== src/Prelude/Split.antt =====
-- `s.split(c)` and `parts.join(c)` for a separator of one code unit.
use Prim.Native.Nat.{ℕ}
use mathlib.Core.Path.{◌≡◌, refl, ap, ◌∙◌}
use mathlib.Core.Logic.{◌≢◌, inl, inr}
use mathlib.Core.Bool.{not}
use mathlib.Core.List.{List, [], ◌∷◌, ◌++◌}
use native.Mathlib.Omega.{arith}
use transmission_ui.Prelude.Tests.{◌==◌, if◌then◌else◌, Bool-cases}
use transmission_ui.Prelude.Lists.{keep}
use transmission_ui.Prelude.Texts.{Text, is_empty}

-- The first part is open: the next code unit that is no separator goes in front of it.
abbrev extend : ℕ → List Text → List Text
extend d [] = (d ∷ []) ∷ []
extend d (p ∷ ps) = (d ∷ p) ∷ ps

unfoldable pub split : ℕ → Text → List Text
split c [] = [] ∷ []
split c (d ∷ s) = let rest = split c s in if d == c then [] ∷ rest else extend d rest

unfoldable pub join : ℕ → List Text → Text
join c [] = []
join c (p ∷ []) = p
join c (p ∷ q ∷ ps) = p ++ c ∷ join c (q ∷ ps)

-- `s.split(c).filter(Boolean)`
unfoldable pub split_nonempty : ℕ → Text → List Text
split_nonempty c s = keep (λ p. not (is_empty p)) (split c s)

split-ne-nil : (c : ℕ) (s : Text) → split c s ≢ []
unfolding split
split-ne-nil c [] = ground arith
split-ne-nil c (d ∷ s) = ground arith

join-extend : (c d : ℕ) (ps : List Text) → ps ≢ [] → join c (extend d ps) ≡ d ∷ join c ps
unfolding join
join-extend c d [] h = absurd (h refl)
join-extend c d (p ∷ []) h = refl
join-extend c d (p ∷ q ∷ ps) h = refl

join-cons : (c : ℕ) (p : Text) (ps : List Text) → ps ≢ [] → join c (p ∷ ps) ≡ p ++ c ∷ join c ps
unfolding join
join-cons c p [] h = absurd (h refl)
join-cons c p (q ∷ ps) h = refl

-- Splitting loses nothing: joined with the separator the parts are the text.
pub join-split : (c : ℕ) (s : Text) → join c (split c s) ≡ s
unfolding split
join-split c [] = unfold join in refl
join-split c (d ∷ s) = elim (Bool-cases (d == c)) [
  | inl same ↦
      rw same (join-cons c [] (split c s) (split-ne-nil c s) ∙ ground (arith, join-split c s))
  | inr other ↦
      rw other (join-extend c d (split c s) (split-ne-nil c s) ∙ ap (◌∷◌ d) (join-split c s))
]
