-- ===== src/Sim/Queue/Pairs.antt =====
-- What the loops of promoteQueue do to each torrent, and what that keeps.
use transmission_ui.Prelude.{
  ==_iff, Bool-cases, take, ℕ, zero, suc, ◌≡◌, refl, sym, ◌∙◌, ◌⊎◌, inl, inr, Bool, true, List, [],
  ◌∷◌, arith,
}
use transmission_ui.Prelude.Keyed.{nat_eq, text_eq_inst, contains, Nodup}
use transmission_ui.Prelude.Sorting.{contains-sort_by}
use transmission_ui.Prelude.Comparison.{sort_by}
use transmission_ui.Types.{Status, check_wait, download_wait, download, seed_wait, seed, status_eq}
use transmission_ui.Types.Detail.{TorrentDetail}
use transmission_ui.Sim.Derive.{by_position}
use transmission_ui.Sim.Queue.{ids, in_status, with_status, pass, begin_check}
use transmission_ui.Sim.Queue.Starts.{
  running_count, status_eq_to, write_set, running_count-cons, start_each-prefix,
}

-- What may become of a torrent.
pub data Advances (now : ℕ) (t u : TorrentDetail) : Type 0 where
  stays : u ≡ t → Advances now t u
  downloads : t.status ≡ download_wait → u ≡ with_status download now t → Advances now t u
  seeds : t.status ≡ seed_wait → u ≡ with_status seed now t → Advances now t u
  checks : t.status ≡ check_wait → u ≡ begin_check now t → Advances now t u

-- Two lists of one length, related place by place.
pub data AllPairs (R : TorrentDetail → TorrentDetail → Type 0)
    : List TorrentDetail → List TorrentDetail → Type 0 where
  nil : AllPairs R [] []
  cons :
      {t u : TorrentDetail} {ts us : List TorrentDetail}
      → R t u
      → AllPairs R ts us
      → AllPairs R (t ∷ ts) (u ∷ us)

pub contains-in_status :
    (w : Status) (i : ℕ) (ts : List TorrentDetail)
    → contains i (ids (in_status w ts)) ≡ true
    → contains i (ids ts) ≡ true
contains-in_status w i [] h = h
contains-in_status w i (t ∷ ts) h = ground (arith, contains-in_status w i ts)

-- A write to torrents that are in a status.
module _ (R : TorrentDetail → TorrentDetail → Type 0) (w : Status)
    (f : TorrentDetail → TorrentDetail) (set : List ℕ) where
  pub write_set-pairs :
      (ts : List TorrentDetail)
      → Nodup (ids ts)
      → ((i : ℕ)
          → contains i set ≡ true
          → contains i (ids ts) ≡ true
          → contains i (ids (in_status w ts)) ≡ true)
      → ((t : TorrentDetail) → R t t)
      → ((t : TorrentDetail) → t.status ≡ w → R t (f t))
      → AllPairs R ts (write_set f set ts)
  write_set-pairs [] d h r s = nil
  write_set-pairs (t ∷ ts) d h r s =
      let rest =
        write_set-pairs ts d.1 (λ i a b. ground (arith, h i a, d.0, b, ==_iff t.id i)) r s in
      elim (Bool-cases (contains t.id set)) [
        | inl hit ↦
            let here : contains t.id (ids (in_status w (t ∷ ts))) ≡ true =
              h t.id hit (ground arith) in
            let is : status_eq t.status w ≡ true =
              ground (arith, here, d.0, contains-in_status w t.id ts) in
            rw hit (cons (s t (status_eq_to t.status w is)) rest)
        | inr miss ↦ rw miss (cons (r t) rest)
      ]

contains-take : (i n : ℕ) (ks : List ℕ) → contains i (take n ks) ≡ true → contains i ks ≡ true
contains-take i zero ks h = ground arith
contains-take i (suc n) [] h = h
contains-take i (suc n) (k ∷ ks) h = ground (arith, contains-take i n ks)

-- What the loop may do to a torrent.
abbrev pub Passes : Status → Status → ℕ → TorrentDetail → TorrentDetail → Type 0
Passes waiting running now t u = (u ≡ t) ⊎ ((t.status ≡ waiting) × (u ≡ with_status running now t))

pub pass-pairs :
    (waiting running : Status) (enabled : Bool) (size now : ℕ) (ts : List TorrentDetail)
    → Nodup (ids ts)
    → AllPairs (Passes waiting running now) ts (pass waiting running enabled size now ts)
unfolding pass
pass-pairs waiting running enabled size now ts d =
    let queued = in_status waiting ts in
    let ks = ids (sort_by by_position queued) in
    let (n, e) = start_each-prefix running enabled size now ks ts in
    rw e (
      write_set-pairs (Passes waiting running now) waiting (with_status running now) (take n ks) ts
        d
        (λ i a b.
          rw (contains-sort_by by_position (λ (t : TorrentDetail). t.id) i queued) at
            (contains-take i n ks a))
        (λ t. inl refl) (λ t s. inr (s, refl)))

module _ {R : TorrentDetail → TorrentDetail → Type 0} where
  pub pairs-ids :
      {ts us : List TorrentDetail}
      → ((t u : TorrentDetail) → R t u → u.id ≡ t.id)
      → AllPairs R ts us
      → ids us ≡ ids ts
  pairs-ids k nil = refl
  pairs-ids k (cons {t} {u} r h) = rw (k t u r, pairs-ids k h) refl

  pub pairs-running_count :
      (s : Status) {ts us : List TorrentDetail}
      → ((t u : TorrentDetail) → R t u → status_eq u.status s ≡ status_eq t.status s)
      → AllPairs R ts us
      → running_count s us ≡ running_count s ts
  pairs-running_count s k nil = refl
  pairs-running_count s k (cons {t} {u} {ts} {us} r h) =
      running_count-cons s u us
      ∙ rw (k t u r, pairs-running_count s k h) (sym (running_count-cons s t ts))

pub pairs-chain :
    {R S T : TorrentDetail → TorrentDetail → Type 0} {ts us vs : List TorrentDetail}
    → ((t u v : TorrentDetail) → R t u → S u v → T t v)
    → AllPairs R ts us
    → AllPairs S us vs
    → AllPairs T ts vs
pairs-chain k nil nil = nil
pairs-chain k (cons {t} {u} r h) (cons {t = u1} {u = v} s g) =
    cons (k t u v r s) (pairs-chain k h g)
