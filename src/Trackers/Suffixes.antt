-- ===== src/Trackers/Suffixes.antt =====
-- The walk over a host's suffixes finds what a search of them all finds.
use transmission_ui.Prelude.{
  ◌==◌, if◌then◌else◌, Option-cases, length, keep, Text, ℕ, zero, suc, ◌<◌, ◌≡◌, refl, inl, inr,
  Bool, true, false, Option, none, some, List, [], ◌∷◌, arith,
}
use transmission_ui.Prelude.Keyed.{nat_eq, text_eq_inst, contains, lookup}
use transmission_ui.Trackers.{dot, after_dot, hit, name_from}

-- Whether a text has a dot.
abbrev pub dotted : Text → Bool
dotted h = contains dot h

-- What stands behind each dot of a text.
unfoldable pub dot_suffixes : Text → List Text
dot_suffixes [] = []
dot_suffixes (c ∷ s) = if c == dot then s ∷ dot_suffixes s else dot_suffixes s

-- The domains of a host from the longest on, down to those of two labels.
abbrev pub domains : Text → List Text
domains h = keep dotted (h ∷ dot_suffixes h)

-- The first of these that has a name.
abbrev pub first_name : List (Text × Text) → List Text → Option Text
first_name names [] = none
first_name names (h ∷ hs) = hit (lookup h names) (first_name names hs)

after_dot-none : (h : Text) → after_dot h ≡ none → (dotted h ≡ false) × (dot_suffixes h ≡ [])
unfolding after_dot dot_suffixes
after_dot-none [] e = (refl, refl)
after_dot-none (c ∷ s) e = ground (arith, after_dot-none s)

after_dot-some :
    (h rest : Text)
    → after_dot h ≡ some rest
    → (dotted h ≡ true) × (dot_suffixes h ≡ rest ∷ dot_suffixes rest) × (length rest < length h)
unfolding after_dot dot_suffixes
after_dot-some [] rest e = ground arith
after_dot-some (c ∷ s) rest e = ground (arith, after_dot-some s rest)

-- With fuel for each code unit the walk of `trackerName` finds the name of the longest domain that has
-- one, where the domains are the host and what stands behind its dots, as long as that has a dot.
pub name_from_lem :
    (names : List (Text × Text)) (f : ℕ) (h : Text)
    → length h < f
    → name_from names f h ≡ first_name names (domains h)
unfolding name_from
name_from_lem names zero h e = elim e [ ]
name_from_lem names (suc f) h e = elim (Option-cases (after_dot h)) [
  | inl none_left ↦
      let (plain, nothing) = after_dot-none h none_left in
      rw (none_left, name_from, nothing, plain) refl
  | inr (rest, more) ↦
      let (has, tail, less) = after_dot-some h rest more in
      let ih : name_from names f rest ≡ first_name names (domains rest) =
        name_from_lem names f rest (omega arith) in
      rw (more, name_from, tail, has, ih) refl
]
