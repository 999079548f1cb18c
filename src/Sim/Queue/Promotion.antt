-- ===== src/Sim/Queue/Promotion.antt =====
-- promoteQueue starts what waits, as far as the queues allow, and touches nothing else.
use transmission_ui.Prelude.{
  ℕ, ◌≤◌, ◌<◌, max, ◌≡◌, refl, sym, ap, ◌∙◌, ◌⊎◌, inl, inr, Bool, true, false, List, arith,
}
use transmission_ui.Prelude.Keyed.{nat_eq, text_eq_inst, Nodup}
use transmission_ui.Prelude.Sorting.{contains-sort_by}
use transmission_ui.Prelude.Comparison.{sort_by}
use transmission_ui.Types.{
  Status, check_wait, check, download_wait, download, seed_wait, seed, status_eq, Session,
}
use transmission_ui.Types.Detail.{TorrentDetail}
use transmission_ui.Sim.Derive.{by_position}
use transmission_ui.Sim.Queue.{
  ids, in_status, with_status, pass, begin_check, next_check, promote_queue,
}
use transmission_ui.Sim.Queue.Starts.{running_count, start_each-le, IsUsed, start_each-IsUsed}
use transmission_ui.Sim.Queue.Pairs.{
  Advances, stays, downloads, seeds, checks, AllPairs, Passes, pass-pairs, pairs-ids,
  pairs-running_count, pairs-chain,
}
use transmission_ui.Sim.Queue.Verifies.{Checks, next_check-IsChecked}

-- One of the two loops: what it does to each torrent, its bound, and that it leaves no slot free.
record IsPassed (waiting running : Status) (enabled : Bool) (size now : ℕ)
    (ts us : List TorrentDetail) : Type 0 where
  pairs : AllPairs (Passes waiting running now) ts us
  bound : enabled ≡ true → running_count running us ≤ max (running_count running ts) size
  used : IsUsed waiting running enabled size us

pass-IsPassed :
    (waiting running : Status) (enabled : Bool) (size now : ℕ) (ts : List TorrentDetail)
    → status_eq running waiting ≡ false
    → Nodup (ids ts)
    → IsPassed waiting running enabled size now ts (pass waiting running enabled size now ts)
unfolding pass
pass-IsPassed waiting running enabled size now ts differ d =
    let queued = in_status waiting ts in
    let ks = ids (sort_by by_position queued) in
    record {
      pairs = pass-pairs waiting running enabled size now ts d;
      bound = λ on. start_each-le running enabled size now ks ts on d;
      used =
          start_each-IsUsed waiting running differ enabled size now ks ts
            (λ i m. contains-sort_by by_position (λ (t : TorrentDetail). t.id) i queued ∙ m);
    }

-- A change from one status to another leaves the number in a third.
moves-running_count :
    (s w r : Status) (f : TorrentDetail → TorrentDetail) {ts us : List TorrentDetail}
    → ((t : TorrentDetail) → (f t).status ≡ r)
    → status_eq w s ≡ false
    → status_eq r s ≡ false
    → AllPairs (λ t u. (u ≡ t) ⊎ ((t.status ≡ w) × (u ≡ f t))) ts us
    → running_count s us ≡ running_count s ts
moves-running_count s w r f to a b h = pairs-running_count s step h
  where
    step :
        (t u : TorrentDetail)
        → (u ≡ t) ⊎ ((t.status ≡ w) × (u ≡ f t))
        → status_eq u.status s ≡ status_eq t.status s
    step t u (inl e) = rw e refl
    step t u (inr (e, g)) = rw (g, to t, e, a, b) refl

moves-ids :
    (w : Status) (f : TorrentDetail → TorrentDetail) {ts us : List TorrentDetail}
    → ((t : TorrentDetail) → (f t).id ≡ t.id)
    → AllPairs (λ t u. (u ≡ t) ⊎ ((t.status ≡ w) × (u ≡ f t))) ts us
    → ids us ≡ ids ts
moves-ids w f keeps h = pairs-ids step h
  where
    step : (t u : TorrentDetail) → (u ≡ t) ⊎ ((t.status ≡ w) × (u ≡ f t)) → u.id ≡ t.id
    step t u (inl e) = rw e refl
    step t u (inr (e, g)) = rw g (keeps t)

clash : (a b : Status) → status_eq a b ≡ false → a ≡ b → ⊥
clash a b h e = ground arith

-- The three loops, one after another; a torrent is moved by one of them at most.
Advances-chain :
    (now : ℕ) (t u v x : TorrentDetail)
    → Passes download_wait download now t u
    → Passes seed_wait seed now u v
    → Checks now v x
    → Advances now t x
unfolding with_status
Advances-chain now t u v x (inl a) (inl b) (inl c) = stays (c ∙ (b ∙ a))
Advances-chain now t u v x (inl a) (inl b) (inr (s, g)) =
    let e = b ∙ a in
    checks (ap (λ (w : TorrentDetail). w.status) (sym e) ∙ s) (g ∙ ap (begin_check now) e)
Advances-chain now t u v x (inl a) (inr (s, g)) (inl c) =
    seeds (ap (λ (w : TorrentDetail). w.status) (sym a) ∙ s) (c ∙ (g ∙ ap (with_status seed now) a))
Advances-chain now t u v x (inr (s, g)) (inl b) (inl c) = downloads s (c ∙ (b ∙ g))
Advances-chain now t u v x (inl a) (inr (s, g)) (inr (s1, g1)) =
    absurd (clash seed check_wait refl (sym (ap (λ (w : TorrentDetail). w.status) g) ∙ s1))
Advances-chain now t u v x (inr (s, g)) (inr (s1, g1)) r =
    absurd (clash download seed_wait refl (sym (ap (λ (w : TorrentDetail). w.status) g) ∙ s1))
Advances-chain now t u v x (inr (s, g)) (inl b) (inr (s1, g1)) =
    absurd
      (clash download check_wait refl (sym (ap (λ (w : TorrentDetail). w.status) (b ∙ g)) ∙ s1))

-- What promoteQueue promises.
pub record IsPromoted (s : Session) (now : ℕ) (ts us : List TorrentDetail) : Type 0 where
  pub pairs : AllPairs (Advances now) ts us
  pub downloads_bound :
      s.download_queue_enabled ≡ true
      → running_count download us ≤ max (running_count download ts) s.download_queue_size
  pub downloads_used :
      IsUsed download_wait download s.download_queue_enabled s.download_queue_size us
  pub seeds_bound :
      s.seed_queue_enabled ≡ true
      → running_count seed us ≤ max (running_count seed ts) s.seed_queue_size
  pub seeds_used : IsUsed seed_wait seed s.seed_queue_enabled s.seed_queue_size us
  pub checks_bound : running_count check us ≤ max (running_count check ts) 1
  pub checks_used : (running_count check_wait us ≡ 0) ⊎ (0 < running_count check us)

-- Nothing that runs is stopped and no torrent changes but the waiting ones that start; each queue's running
-- torrents stay within its size, but for those that ran before; at most one verify begins, and none beside
-- another; and no slot is left free while a torrent waits for it.
pub promote_queue-IsPromoted :
    (s : Session) (now : ℕ) (ts : List TorrentDetail)
    → Nodup (ids ts)
    → IsPromoted s now ts (promote_queue s now ts)
unfolding promote_queue
promote_queue-IsPromoted s now ts d =
    let ts1 = pass download_wait download s.download_queue_enabled s.download_queue_size now ts in
    let p1 =
      pass-IsPassed download_wait download s.download_queue_enabled s.download_queue_size now ts
        refl d in
    let d1 : Nodup (ids ts1) =
      rw (moves-ids download_wait (with_status download now) (λ t. refl) p1.pairs) d in
    let ts2 = pass seed_wait seed s.seed_queue_enabled s.seed_queue_size now ts1 in
    let p2 = pass-IsPassed seed_wait seed s.seed_queue_enabled s.seed_queue_size now ts1 refl d1 in
    let d2 : Nodup (ids ts2) =
      rw (moves-ids seed_wait (with_status seed now) (λ t. refl) p2.pairs) d1 in
    let p3 = next_check-IsChecked now ts2 d2 in
    let by_check : (k : Status)
        → status_eq check_wait k ≡ false
        → status_eq check k ≡ false
        → running_count k (next_check now ts2) ≡ running_count k ts2 =
      λ k a b. moves-running_count k check_wait check (begin_check now) (λ t. refl) a b p3.pairs in
    let by_seed : (k : Status)
        → status_eq seed_wait k ≡ false
        → status_eq seed k ≡ false
        → running_count k ts2 ≡ running_count k ts1 =
      λ k a b.
        moves-running_count k seed_wait seed (with_status seed now) (λ t. refl) a b p2.pairs in
    let by_download : (k : Status)
        → status_eq download_wait k ≡ false
        → status_eq download k ≡ false
        → running_count k ts1 ≡ running_count k ts =
      λ k a b.
        moves-running_count k download_wait download (with_status download now) (λ t. refl) a b
          p1.pairs in
    record {
      pairs =
          pairs-chain (λ t u x p q. Advances-chain now t u q.0 x p q.1 q.2) p1.pairs
            (pairs-chain
              {T = λ u x. (v : TorrentDetail) × Passes seed_wait seed now u v × Checks now v x}
              (λ u v x p q. (v, p, q)) p2.pairs p3.pairs);
      downloads_bound =
          λ on. omega (arith, p1.bound on, by_seed download refl refl, by_check download refl refl);
      downloads_used =
          rw
            (
              by_check download_wait refl refl,
              by_check download refl refl,
              by_seed download_wait refl refl,
              by_seed download refl refl,
            )
            p1.used;
      seeds_bound =
          λ on. omega (arith, p2.bound on, by_check seed refl refl, by_download seed refl refl);
      seeds_used = rw (by_check seed_wait refl refl, by_check seed refl refl) p2.used;
      checks_bound = omega (arith, p3.bound, by_seed check refl refl, by_download check refl refl);
      checks_used = p3.used;
    }
