-- ===== src/Sim/Derive/Totals.antt =====
-- The accounts of bytes that derive.ts keeps: of a torrent, and of its files.
use native.Mathlib.Nat.{le-div_iff_mul-le}
use transmission_ui.Prelude.{
  ltb, Bool-cases, ℕ, ◌+◌, ◌-◌, ◌*◌, ◌≤◌, ◌<◌, min, ◌≡◌, refl, ◌↔◌, inl, inr, true, false, List, [],
  ◌∷◌, arith,
}
use transmission_ui.Types.{whole}
use transmission_ui.Types.Detail.{TorrentFile, FileStat, TorrentDetail}
use transmission_ui.Sim.Derive.{distribute_bytes, sum_wanted, share, reconcile}

-- What reconcile promises of a torrent.
pub record IsBalanced (t : TorrentDetail) : Type 0 where
  pub sums : t.have_valid + t.have_unchecked + t.left_until_done ≡ t.size_when_done
  pub share_le : t.percent_done ≤ whole
  pub all_had : 0 < t.size_when_done → (t.percent_done ≡ whole) ↔ (t.have_valid ≡ t.size_when_done)

share-le : (part size : ℕ) → share part size ≤ whole
share-le part size = ground arith

share-whole : (part size : ℕ) → 0 < size → (share part size ≡ whole) ↔ (size ≤ part)
share-whole part size h =
    ground (arith, le-div_iff_mul-le {k = size} {x = whole} {y = part * whole} h)

-- A torrent whose metadata is there is balanced after reconcile, whatever its counts were.
pub reconcile-IsBalanced :
    (t : TorrentDetail) → t.metadata_percent_complete ≡ whole → IsBalanced (reconcile t)
unfolding reconcile
reconcile-IsBalanced t h =
    let complete : ltb t.metadata_percent_complete whole ≡ false = ground arith in
    let valid = min t.size_when_done t.have_valid in
    rw (complete, reconcile)
      (record {
        sums = omega arith;
        share_le = share-le valid t.size_when_done;
        all_had = λ some_wanted. ground (arith, share-whole valid t.size_when_done some_wanted);
      })

-- What the spreading leaves of each file: an unwanted one as it was, of a wanted one no more than its length.
abbrev pub IsSpread : List TorrentFile → List FileStat → List TorrentFile → Type 0
IsSpread [] ss [] = Unit
IsSpread (f ∷ fs) [] (g ∷ gs) =
    (g.length ≡ f.length) × (g.bytes_completed ≤ f.length) × IsSpread fs [] gs
IsSpread (f ∷ fs) (s ∷ ss) (g ∷ gs) =
    (g.length ≡ f.length)
    × (s.wanted ≡ true → g.bytes_completed ≤ f.length)
    × (s.wanted ≡ false → g ≡ f)
    × IsSpread fs ss gs
IsSpread [] ss (g ∷ gs) = ⊥
IsSpread (f ∷ fs) ss [] = ⊥

no_stats : (fs : List TorrentFile) (n : ℕ) → (distribute_bytes fs [] n).1 ≡ []
unfolding distribute_bytes
no_stats [] n = refl
no_stats (f ∷ fs) n = no_stats fs (n - min f.length n)

distribute_bytes-IsSpread :
    (fs : List TorrentFile) (ss : List FileStat) (n : ℕ)
    → IsSpread fs ss (distribute_bytes fs ss n).0
unfolding distribute_bytes
distribute_bytes-IsSpread [] ss n = tt
distribute_bytes-IsSpread (f ∷ fs) [] n =
    (refl, omega arith, distribute_bytes-IsSpread fs [] (n - min f.length n))
distribute_bytes-IsSpread (f ∷ fs) (s ∷ ss) n = elim (Bool-cases s.wanted) [
  | inl on ↦ rw on (
    refl,
    λ e. omega arith,
    λ e. ground arith,
    distribute_bytes-IsSpread fs ss (n - min f.length n),
  )
  | inr off ↦ rw off (refl, λ e. ground arith, λ e. refl, distribute_bytes-IsSpread fs ss n)
]

distribute_bytes-sum :
    (fs : List TorrentFile) (ss : List FileStat) (n : ℕ)
    → (let (gs, us) = distribute_bytes fs ss n in sum_wanted (λ f. f.bytes_completed) gs us)
      ≡ min n (sum_wanted (λ f. f.length) fs ss)
unfolding distribute_bytes
distribute_bytes-sum [] ss n = omega arith
distribute_bytes-sum (f ∷ fs) [] n =
    let left = n - min f.length n in
    let none_left = no_stats fs left in
    let rest = rw none_left at (distribute_bytes-sum fs [] left) in
    rw none_left (omega (arith, rest))
distribute_bytes-sum (f ∷ fs) (s ∷ ss) n = elim (Bool-cases s.wanted) [
  | inl on ↦
      let rest = distribute_bytes-sum fs ss (n - min f.length n) in rw on (omega (arith, rest))
  | inr off ↦ rw off (omega (arith, distribute_bytes-sum fs ss n))
]

-- Spreading `n` bytes gives the wanted files the smaller of `n` and their size in all, none more than its length,
-- and leaves the unwanted files as they were.
pub distribute_bytes_lem :
    (fs : List TorrentFile) (ss : List FileStat) (n : ℕ)
    → (let (gs, us) = distribute_bytes fs ss n in
        IsSpread fs ss gs
        × (sum_wanted (λ f. f.bytes_completed) gs us ≡ min n (sum_wanted (λ f. f.length) fs ss)))
distribute_bytes_lem fs ss n = (distribute_bytes-IsSpread fs ss n, distribute_bytes-sum fs ss n)
