-- ===== src/Sim/Queue/Starts.antt =====
-- The loop `pass` of promoteQueue: what it does to each torrent, and how many torrents it starts.
use transmission_ui.Prelude.{
  leb, ◌==◌, if◌then◌else◌, ==_iff, Bool-cases, length, take, ℕ, suc, ◌+◌, ◌≤◌, ◌<◌, max, ◌≡◌, refl,
  sym, ap, ◌∙◌, ◌⊎◌, inl, inr, Bool, true, false, ◌&&◌, List, [], ◌∷◌, arith,
}
use transmission_ui.Prelude.Keyed.{nat_eq, text_eq_inst, contains, Nodup}
use transmission_ui.Types.{Status, status_eq}
use transmission_ui.Types.Detail.{TorrentDetail}
use transmission_ui.Sim.Queue.{ids, at_id, in_status, with_status, start_each}

abbrev pub running_count : Status → List TorrentDetail → ℕ
running_count s ts = length (in_status s ts)

pub status_eq_to : (a b : Status) → status_eq a b ≡ true → a ≡ b
status_eq_to a b h = ground arith

-- Writes to the torrents of a set of ids.
abbrev pub write_set :
    (TorrentDetail → TorrentDetail) → List ℕ → List TorrentDetail → List TorrentDetail
write_set f set [] = []
write_set f set (t ∷ ts) = (if contains t.id set then f t else t) ∷ write_set f set ts

pub running_count-cons :
    (s : Status) (t : TorrentDetail) (ts : List TorrentDetail)
    → running_count s (t ∷ ts) ≡ (if status_eq t.status s then 1 else 0) + running_count s ts
running_count-cons s t ts = elim (Bool-cases (status_eq t.status s)) [
  | inl is ↦ rw is (omega arith)
  | inr isnt ↦ rw isnt (omega arith)
]

module _ (f : TorrentDetail → TorrentDetail) where
  pub at_id-absent :
      (k : ℕ) (ts : List TorrentDetail) → contains k (ids ts) ≡ false → at_id k f ts ≡ ts
  at_id-absent k [] out = refl
  at_id-absent k (t ∷ ts) out = ground (arith, at_id-absent k ts)

  -- Writing to one torrent changes the number of those in a status by at most one.
  pub running_count-at_id :
      (s : Status) (k : ℕ) (ts : List TorrentDetail)
      → Nodup (ids ts)
      → running_count s (at_id k f ts) ≤ running_count s ts + 1
  running_count-at_id s k [] d = omega arith
  running_count-at_id s k (t ∷ ts) d = elim (Bool-cases (t.id == k)) [
    | inl here ↦
        let out = rw ((==_iff t.id k).0 here) at d.0 in
        rw (here, at_id-absent k ts out)
          (ground (arith, running_count-cons s (f t) ts, running_count-cons s t ts))
    | inr elsewhere ↦ rw elsewhere (
        ground (
          arith,
          running_count-cons s t (at_id k f ts),
          running_count-cons s t ts,
          running_count-at_id s k ts d.1,
        ))
  ]

-- Under a write that keeps ids and that done twice is done once, the ids keep, and two writes join.
module _ (f : TorrentDetail → TorrentDetail) (keeps : (t : TorrentDetail) → (f t).id ≡ t.id)
    (once : (t : TorrentDetail) → f (f t) ≡ f t) where
  pub ids-at_id : (k : ℕ) (ts : List TorrentDetail) → ids (at_id k f ts) ≡ ids ts
  ids-at_id k [] = refl
  ids-at_id k (t ∷ ts) = ground (arith, ids-at_id k ts, keeps t)

  pub write_set-none : (ts : List TorrentDetail) → write_set f [] ts ≡ ts
  write_set-none [] = refl
  write_set-none (t ∷ ts) = ap (◌∷◌ t) (write_set-none ts)

  pub write_set-at_id :
      (k : ℕ) (set : List ℕ) (ts : List TorrentDetail)
      → write_set f set (at_id k f ts) ≡ write_set f (k ∷ set) ts
  write_set-at_id k set [] = refl
  write_set-at_id k set (t ∷ ts) = ground (arith, write_set-at_id k set ts, keeps t, once t)

-- The loop `pass`, for a status to start from and one to run in.
module _ (running : Status) (enabled : Bool) (size now : ℕ) where
  -- It starts the torrents with the first few of the ids.
  pub start_each-prefix :
      (ks : List ℕ) (ts : List TorrentDetail)
      → (n : ℕ) × (start_each running enabled size now ks ts
          ≡ write_set (with_status running now) (take n ks) ts)
  unfolding start_each with_status
  start_each-prefix [] ts =
      (0, sym (write_set-none (with_status running now) (λ t. refl) (λ t. refl) ts))
  start_each-prefix (k ∷ ks) ts =
      let f = with_status running now in
      elim (Bool-cases (enabled && leb size (running_count running ts))) [
        | inl over ↦ (0, rw over (sym (write_set-none f (λ t. refl) (λ t. refl) ts)))
        | inr free ↦
            let (n, e) = start_each-prefix ks (at_id k f ts) in
            (suc n, rw free (e ∙ write_set-at_id f (λ t. refl) (λ t. refl) k (take n ks) ts))
      ]

  -- It runs no more of them than the size, or than ran before.
  pub start_each-le :
      (ks : List ℕ) (ts : List TorrentDetail)
      → enabled ≡ true
      → Nodup (ids ts)
      → running_count running (start_each running enabled size now ks ts)
        ≤ max (running_count running ts) size
  unfolding start_each with_status
  start_each-le [] ts on d = omega arith
  start_each-le (k ∷ ks) ts on d = elim (Bool-cases (leb size (running_count running ts))) [
    | inl over ↦ rw (on, over) (omega arith)
    | inr free ↦
        let f = with_status running now in
        let d1 : Nodup (ids (at_id k f ts)) = rw (ids-at_id f (λ t. refl) (λ t. refl) k ts) d in
        let rest = start_each-le ks (at_id k f ts) on d1 in
        let short : running_count running ts < size = ground arith in
        rw (on, free, start_each) (omega (arith, rest, running_count-at_id f running k ts d, short))
  ]

-- With no status to start from left, or as many running as the size allows.
abbrev pub IsUsed : Status → Status → Bool → ℕ → List TorrentDetail → Type 0
IsUsed waiting running enabled size ts =
    (running_count waiting ts ≡ 0) ⊎ ((enabled ≡ true) × (size ≤ running_count running ts))

module _ (waiting running : Status) (differ : status_eq running waiting ≡ false) (enabled : Bool)
    (size now : ℕ) where
  waiting-at_id :
      (k i : ℕ) (ts : List TorrentDetail)
      → contains i (ids (in_status waiting (at_id k (with_status running now) ts))) ≡ true
      → (contains i (ids (in_status waiting ts)) ≡ true) × ((k == i) ≡ false)
  unfolding with_status
  waiting-at_id k i [] h = ground arith
  waiting-at_id k i (t ∷ ts) h = ground (arith, waiting-at_id k i ts, differ)

  nobody_waits :
      (ts : List TorrentDetail)
      → ((i : ℕ) → contains i (ids (in_status waiting ts)) ≡ true → ⊥)
      → running_count waiting ts ≡ 0
  nobody_waits ts h = go (in_status waiting ts) h
    where
      go : (us : List TorrentDetail) → ((i : ℕ) → contains i (ids us) ≡ true → ⊥) → length us ≡ 0
      go [] h = refl
      go (u ∷ us) h = absurd (h u.id (ground arith))

  -- The loop leaves no slot free while a torrent of the ids waits.
  pub start_each-IsUsed :
      (ks : List ℕ) (ts : List TorrentDetail)
      → ((i : ℕ) → contains i (ids (in_status waiting ts)) ≡ true → contains i ks ≡ true)
      → IsUsed waiting running enabled size (start_each running enabled size now ks ts)
  unfolding start_each
  start_each-IsUsed [] ts h = inl (nobody_waits ts (λ i m. ground (arith, h i m)))
  start_each-IsUsed (k ∷ ks) ts h =
      elim (Bool-cases (enabled && leb size (running_count running ts))) [
        | inl over ↦ rw over (inr (ground arith))
        | inr free ↦ rw free (
            start_each-IsUsed ks (at_id k (with_status running now) ts)
              (λ i m. ground (arith, waiting-at_id k i ts m, h i)))
      ]
