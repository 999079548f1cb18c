-- ===== src/Listing/Folders/Counts.antt =====
-- What `folderTree` counts for a folder.
use transmission_ui.Prelude.{
  ◌==◌, if◌then◌else◌, Bool-cases, length, keep, Text, text_eq, text_eq_iff, starts_with, ℕ, ◌+◌,
  ◌≡◌, refl, subst, inl, inr, Bool, true, false, ◌||◌, List, [], ◌∷◌, ◌++◌, map, arith,
}
use transmission_ui.Prelude.Keyed.{nat_eq, text_eq_inst, insert}
use transmission_ui.Prelude.Maps.{lookup-insert}
use transmission_ui.Types.{TorrentSummary}
use transmission_ui.Paths.{slash, is_under}
use transmission_ui.Listing.Filters.{in_dir}
use transmission_ui.Listing.Folders.{count_at, bump, per_dir, cuts, ancestors, bump_all, within}

-- `n` for each key in the list that is `p`.
abbrev pub gain : Text → ℕ → List Text → ℕ
gain p n [] = 0
gain p n (k ∷ ks) = (if text_eq k p then n else 0) + gain p n ks

-- What the directories under a folder hold.
abbrev pub weigh : (Text → Bool) → List (Text × ℕ) → ℕ
weigh holds [] = 0
weigh holds ((d, n) ∷ m) = (if holds d then n else 0) + weigh holds m

-- A path is the folder or stands under it.
abbrev pub held_by : Text → Text → Bool
held_by p d = text_eq d p || is_under d p

count_at-bump :
    (p k : Text) (n : ℕ) (m : List (Text × ℕ))
    → count_at p (bump k n m) ≡ count_at p m + (if text_eq k p then n else 0)
unfolding bump
count_at-bump p k n m = elim (Bool-cases (text_eq k p)) [
  | inl same ↦
      let e : k ≡ p = (text_eq_iff k p).0 same in
      ground (arith, lookup-insert p k (count_at k m + n) m, e)
  | inr other ↦ ground (arith, lookup-insert p k (count_at k m + n) m)
]

count_at-bump_all :
    (p : Text) (ks : List Text) (n : ℕ) (m : List (Text × ℕ))
    → count_at p (bump_all ks n m) ≡ count_at p m + gain p n ks
unfolding bump_all
count_at-bump_all p [] n m = omega arith
count_at-bump_all p (k ∷ ks) n m =
    omega (arith, count_at-bump_all p ks n (bump k n m), count_at-bump p k n m)

gain-map_nil : (c n : ℕ) (ks : List Text) → gain [] n (map (◌∷◌ c) ks) ≡ 0
unfolding text_eq
gain-map_nil c n [] = refl
gain-map_nil c n (k ∷ ks) = omega (arith, gain-map_nil c n ks)

gain-map_cons :
    (c e : ℕ) (p : Text) (n : ℕ) (ks : List Text)
    → gain (e ∷ p) n (map (◌∷◌ c) ks) ≡ (if c == e then gain p n ks else 0)
unfolding text_eq
gain-map_cons c e p n [] = ground arith
gain-map_cons c e p n (k ∷ ks) = ground (arith, gain-map_cons c e p n ks)

gain-cuts :
    (p : Text) (n : ℕ) (s : Text)
    → gain p n (cuts s) ≡ (if starts_with s (p ++ slash ∷ []) then n else 0)
unfolding cuts starts_with text_eq
gain-cuts [] n [] = refl
gain-cuts (e ∷ p) n [] = refl
gain-cuts [] n (c ∷ s) = ground (arith, gain-map_nil c n (cuts s))
gain-cuts (e ∷ p) n (c ∷ s) = ground (arith, gain-map_cons c e p n (cuts s), gain-cuts p n s)

gain-ancestors :
    (e : ℕ) (p : Text) (n : ℕ) (d : Text)
    → gain (e ∷ p) n (ancestors d) ≡ (if is_under d (e ∷ p) then n else 0)
unfolding ancestors starts_with
gain-ancestors e p n [] = refl
gain-ancestors e p n (c ∷ s) = ground (arith, gain-map_cons c e p n (cuts s), gain-cuts p n s)

not_under_self : (d : Text) → is_under d d ≡ false
unfolding starts_with
not_under_self [] = refl
not_under_self (c ∷ d) = ground (arith, not_under_self d)

same-not_under : (d p : Text) → text_eq d p ≡ true → is_under d p ≡ false
same-not_under d p h = subst (λ q. is_under d q ≡ false) ((text_eq_iff d p).0 h) (not_under_self d)

count_at-within :
    (e : ℕ) (p : Text) (dirs m : List (Text × ℕ))
    → count_at (e ∷ p) (within dirs m) ≡ count_at (e ∷ p) m + weigh (held_by (e ∷ p)) dirs
unfolding within
count_at-within e p [] m = omega arith
count_at-within e p ((d, n) ∷ dirs) m =
    let up = bump_all (ancestors d) n m in
    let ih = count_at-within e p dirs (bump d n up) in
    let own = count_at-bump (e ∷ p) d n up in
    let above = count_at-bump_all (e ∷ p) (ancestors d) n m in
    let under = gain-ancestors e p n d in
    elim (Bool-cases (text_eq d (e ∷ p))) [
      | inl same ↦ ground (arith, ih, own, above, under, same-not_under d (e ∷ p) same)
      | inr other ↦ ground (arith, ih, own, above, under)
    ]

weigh-insert :
    (holds : Text → Bool) (d : Text) (m : List (Text × ℕ))
    → weigh holds (insert d (count_at d m + 1) m) ≡ weigh holds m + (if holds d then 1 else 0)
weigh-insert holds d [] = ground arith
weigh-insert holds d ((k, n) ∷ m) = elim (Bool-cases (text_eq k d)) [
  | inl same ↦ let e : k ≡ d = (text_eq_iff k d).0 same in ground (arith, e)
  | inr other ↦ ground (arith, weigh-insert holds d m)
]

weigh-per_dir :
    (p : Text) (ts : List TorrentSummary) (m : List (Text × ℕ))
    → weigh (held_by p) (per_dir ts m) ≡ weigh (held_by p) m + length (keep (in_dir p) ts)
unfolding per_dir bump
weigh-per_dir p [] m = omega arith
weigh-per_dir p (t ∷ ts) m =
    ground (
      arith,
      weigh-per_dir p ts (bump t.download_dir 1 m),
      weigh-insert (held_by p) t.download_dir m,
    )

-- Under each path but the empty one `folderTree` counts the torrents in that folder and below it.
pub count_at-folders :
    (e : ℕ) (p : Text) (ts : List TorrentSummary)
    → count_at (e ∷ p) (within (per_dir ts []) []) ≡ length (keep (in_dir (e ∷ p)) ts)
count_at-folders e p ts =
    omega (arith, count_at-within e p (per_dir ts []) [], weigh-per_dir (e ∷ p) ts [])
