-- ===== src/Sim/Queue/Verifies.antt =====
-- The verify that promoteQueue begins.
use transmission_ui.Prelude.{
  ◌==◌, ==_iff, Bool-cases, length, any, ℕ, ◌≤◌, ◌<◌, max, ◌≡◌, refl, sym, ◌∙◌, ◌↔◌, ◌⊎◌, inl, inr,
  true, List, [], ◌∷◌, arith,
}
use transmission_ui.Prelude.Keyed.{nat_eq, text_eq_inst, contains, Nodup}
use transmission_ui.Prelude.Sorting.{length-sort_by, contains-sort_by}
use transmission_ui.Prelude.Comparison.{sort_by}
use transmission_ui.Types.{Status, check_wait, check, status_eq}
use transmission_ui.Types.Detail.{TorrentDetail}
use transmission_ui.Sim.Derive.{by_position}
use transmission_ui.Sim.Queue.{ids, at_id, in_status, begin_check, begin_first, next_check}
use transmission_ui.Sim.Queue.Starts.{
  running_count, running_count-cons, running_count-at_id, write_set-none, write_set-at_id,
}
use transmission_ui.Sim.Queue.Pairs.{AllPairs, nil, cons, contains-in_status, write_set-pairs}

-- What becomes of a torrent when the next verify begins.
abbrev pub Checks : ℕ → TorrentDetail → TorrentDetail → Type 0
Checks now t u = (u ≡ t) ⊎ ((t.status ≡ check_wait) × (u ≡ begin_check now t))

pub record IsChecked (now : ℕ) (ts us : List TorrentDetail) : Type 0 where
  pub pairs : AllPairs (Checks now) ts us
  pub bound : running_count check us ≤ max (running_count check ts) 1
  pub used : (running_count check_wait us ≡ 0) ⊎ (0 < running_count check us)

any-running_count :
    (s : Status) (ts : List TorrentDetail)
    → (any (λ t. status_eq t.status s) ts ≡ true) ↔ (0 < running_count s ts)
any-running_count s [] = ground arith
any-running_count s (t ∷ ts) = ground (arith, any-running_count s ts, running_count-cons s t ts)

pairs-same :
    {R : TorrentDetail → TorrentDetail → Type 0} (ts : List TorrentDetail)
    → ((t : TorrentDetail) → R t t)
    → AllPairs R ts ts
pairs-same [] r = nil
pairs-same (t ∷ ts) r = cons (r t) (pairs-same ts r)

running_count-written :
    (s : Status) (f : TorrentDetail → TorrentDetail) (k : ℕ) (ts : List TorrentDetail)
    → ((t : TorrentDetail) → status_eq (f t).status s ≡ true)
    → contains k (ids ts) ≡ true
    → 0 < running_count s (at_id k f ts)
running_count-written s f k [] hits m = ground arith
running_count-written s f k (t ∷ ts) hits m = elim (Bool-cases (t.id == k)) [
  | inl here ↦
      let hit : 1 ≤ running_count s (f t ∷ at_id k f ts) =
        ground (arith, running_count-cons s (f t) (at_id k f ts), hits t) in
      rw here hit
  | inr elsewhere ↦ rw elsewhere (
      omega (
        arith,
        running_count-cons s t (at_id k f ts),
        running_count-written s f k ts hits (ground arith),
      ))
]

begin_first-IsChecked :
    (now : ℕ) (queued ts : List TorrentDetail)
    → Nodup (ids ts)
    → running_count check ts ≡ 0
    → ((i : ℕ) → contains i (ids queued) ≡ true → contains i (ids (in_status check_wait ts)) ≡ true)
    → length queued ≡ running_count check_wait ts
    → IsChecked now ts (begin_first now queued ts)
unfolding begin_check
begin_first-IsChecked now [] ts d idle sound equal = record {
  pairs = pairs-same ts (λ t. inl refl);
  bound = omega arith;
  used = inl (sym equal);
}
begin_first-IsChecked now (t ∷ queued) ts d idle sound equal =
    let f = begin_check now in
    let k = t.id in
    let waits : contains k (ids (in_status check_wait ts)) ≡ true = sound k (ground arith) in
    let e =
      sym (write_set-none f (λ t. refl) (λ t. refl) (at_id k f ts))
      ∙ write_set-at_id f (λ t. refl) (λ t. refl) k [] ts in
    record {
      pairs = rw e (
          write_set-pairs (Checks now) check_wait f (k ∷ []) ts d
            (λ i a b. ground (arith, ==_iff k i, waits)) (λ t. inl refl) (λ t s. inr (s, refl)));
      bound = omega (arith, running_count-at_id f check k ts d);
      used = inr (
          running_count-written check f k ts (λ t. refl)
            (contains-in_status check_wait k ts waits));
    }

pub next_check-IsChecked :
    (now : ℕ) (ts : List TorrentDetail) → Nodup (ids ts) → IsChecked now ts (next_check now ts)
unfolding next_check
next_check-IsChecked now ts d =
    let queued = in_status check_wait ts in
    elim (Bool-cases (any (λ t. status_eq t.status check) ts)) [
      | inl busy ↦ rw busy (record {
        pairs = pairs-same ts (λ t. inl refl);
        bound = omega arith;
        used = inr ((any-running_count check ts).0 busy);
      })
      | inr idle ↦ rw idle (
          begin_first-IsChecked now (sort_by by_position queued) ts d
            (ground (arith, any-running_count check ts))
            (λ i m. sym (contains-sort_by by_position (λ (t : TorrentDetail). t.id) i queued) ∙ m)
            (length-sort_by by_position queued))
    ]
