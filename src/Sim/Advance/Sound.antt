-- ===== src/Sim/Advance/Sound.antt =====
-- A step of the simulator keeps the account of a torrent's bytes.
use transmission_ui.Prelude.{
  ltb, if◌then◌else◌, if-cases, ℕ, max, ◌≡◌, refl, ◌∙◌, Bool, true, false, ◌&&◌, ◌||◌, arith,
}
use transmission_ui.Types.{whole, Status, check, download, seed, status_eq, Session}
use transmission_ui.Types.Detail.{TorrentDetail}
use transmission_ui.Sim.{SimFields}
use transmission_ui.Sim.Derive.{is_checking}
use transmission_ui.Sim.Goals.{seed_goal, seed_idle_limit_of, eta_of}
use transmission_ui.Sim.Advance.{
  Amounts, Advanced, at_rest, gain_bytes, count_on, maybe_stall, completes, complete, reaches,
  recheck, is_idle, if_met, if_idle, seed_end, seed_on, if_complete, run_on, advance,
}
use transmission_ui.Sim.Rand.{chance}
use transmission_ui.Sim.Rates.{Speeds}
use transmission_ui.Sim.Advance.Counts.{
  IsSound, on_disk, IsKept, Keeps, check_on-Keeps, IsPlain, IsPlain-IsKept, counted-IsPlain,
}

module _ {size disk : ℕ} where
  recheck-IsKept : (t : TorrentDetail) → IsPlain size disk t → IsKept size disk (recheck t)
  unfolding recheck is_checking
  recheck-IsKept t p = record {
    sound = record { known = p.known; sums = omega (arith, p.sums); settled = λ e. ground arith };
    same_size = p.same_size;
    grows = omega (arith, p.grown);
  }

  like-IsPlain :
      (t u : TorrentDetail)
      → u.metadata_percent_complete ≡ t.metadata_percent_complete
      → u.have_valid ≡ t.have_valid
      → u.have_unchecked ≡ t.have_unchecked
      → u.left_until_done ≡ t.left_until_done
      → u.size_when_done ≡ t.size_when_done
      → IsPlain size disk t
      → IsPlain size disk u
  like-IsPlain t u a b c d e p = record {
    known = a ∙ p.known;
    sums = omega (arith, b, d, e, p.sums);
    none_unchecked = c ∙ p.none_unchecked;
    same_size = e ∙ p.same_size;
    grown = omega (arith, b, p.grown);
  }

  if_met-IsPlain :
      (b : Bool) (t : TorrentDetail) → IsPlain size disk t → IsPlain size disk (if_met b t)
  if_met-IsPlain true t p = like-IsPlain t _ refl refl refl refl refl p
  if_met-IsPlain false t p = p

  if_idle-IsPlain :
      (b : Bool) (t : TorrentDetail) → IsPlain size disk t → IsPlain size disk (if_idle b t)
  if_idle-IsPlain true t p = like-IsPlain t _ refl refl refl refl refl p
  if_idle-IsPlain false t p = p

  seed_end-IsKept :
      (b : Bool) (r t : TorrentDetail) (f : SimFields) (changed : Bool)
      → IsKept size disk r
      → IsKept size disk t
      → IsKept size disk (seed_end b r t f changed).torrent
  seed_end-IsKept true r t f changed h k = h
  seed_end-IsKept false r t f changed h k = k

  seed_on-IsKept :
      (s : Session) (dt : Amounts) (now : ℕ) (changed : Bool) (t : TorrentDetail) (f : SimFields)
      → IsPlain size disk t
      → IsKept size disk (seed_on s dt now changed (t, f)).torrent
  unfolding seed_on
  seed_on-IsKept s dt now changed t f p =
      let goal = seed_goal s t in
      let met = status_eq t.status seed && reaches goal t.upload_ratio in
      let u = if_met met t in
      let (rechecks, a) = chance dt.recheck_chance f.rand in
      let seeding = status_eq u.status seed in
      let g = if seeding then record f { rand = a } else f in
      let idle = seeding && is_idle (seed_idle_limit_of s u) now u in
      let v = if_idle idle u in
      let w : TorrentDetail = record v { eta = eta_of v goal } in
      let q = if_met-IsPlain met t p in
      let r = if_idle-IsPlain idle u q in
      seed_end-IsKept (seeding && rechecks) (recheck u) w g (changed || met || idle)
        (recheck-IsKept u q) (IsPlain-IsKept w (like-IsPlain v w refl refl refl refl refl r))

  if_complete-IsKept :
      (b : Bool) (s : Session) (dt : Amounts) (now : ℕ) (t : TorrentDetail) (f : SimFields)
      → IsPlain size disk t
      → IsKept size disk (if_complete b s dt now (t, f)).torrent
  unfolding if_complete complete
  if_complete-IsKept true s dt now t f p =
      seed_on-IsKept s dt now true (complete now t) (record f { base_up = max f.base_up 120_000 })
        (like-IsPlain t (complete now t) refl refl refl refl refl p)
  if_complete-IsKept false s dt now t f p = seed_on-IsKept s dt now false t f p

maybe_stall-torrent :
    (chance now : ℕ) (t : TorrentDetail) (f : SimFields) → (maybe_stall chance now (t, f)).0 ≡ t
unfolding maybe_stall
maybe_stall-torrent part now t f = refl

run_on-IsKept :
    {size disk : ℕ} (s : Session) (want : Speeds) (dt : Amounts) (now : ℕ) (t : TorrentDetail)
    (f : SimFields)
    → IsPlain size disk t
    → IsKept size disk (run_on s want dt now (t, f)).torrent
unfolding run_on
run_on-IsKept {size} {disk} s want dt now t f p =
    let (t1, f1) = gain_bytes dt.down_bytes (t, f) in
    let u = count_on want dt t1 in
    let (v, g) = maybe_stall dt.stall_chance now (u, f1) in
    let q = counted-IsPlain size disk want dt t f p in
    let r : IsPlain size disk v = rw (maybe_stall-torrent dt.stall_chance now u f1) q in
    if_complete-IsKept (completes v) s dt now v g r

running-IsPlain :
    (t : TorrentDetail)
    → IsSound t
    → (status_eq t.status download || status_eq t.status seed) ≡ true
    → IsPlain t.size_when_done (on_disk t) t
unfolding is_checking
running-IsPlain t h runs =
    let unchecked : t.have_unchecked ≡ 0 = h.settled (ground arith) in
    record {
      known = h.known;
      sums = omega (arith, unchecked, h.sums);
      none_unchecked = unchecked;
      same_size = refl;
      grown = omega (arith, unchecked);
    }

status_eq_to : (a b : Status) → status_eq a b ≡ true → a ≡ b
status_eq_to a b h = ground arith

-- A step keeps the account of a torrent whose metadata is there: it loses no byte on disk, adds none beyond the
-- size, and leaves bytes unchecked only during a verify.
pub advance-Keeps :
    (reveal : ℕ → TorrentDetail → TorrentDetail) (s : Session) (want : Speeds) (dt : Amounts)
    (now : ℕ) (t : TorrentDetail) (f : SimFields)
    → IsSound t
    → Keeps t (advance reveal s want dt now t f).torrent
unfolding advance
advance-Keeps reveal s want dt now t f h =
    let P : Advanced → Type 0 = λ r. Keeps t r.torrent in
    let still : Advanced = record { torrent = at_rest t; fields = f; changed = false } in
    let rests : P still = record {
      sound = record { known = h.known; sums = h.sums; settled = h.settled };
      same_size = refl;
      grows = omega arith;
    } in
    if-cases P (ltb t.metadata_percent_complete whole) _ _
      (λ unknown. absurd (ground (arith, h.known, unknown)))
      (λ known.
        if-cases P (status_eq t.status check) _ _
          (λ checks. check_on-Keeps dt.checked f t h (status_eq_to t.status check checks))
          (λ idle.
            if-cases P (status_eq t.status download || status_eq t.status seed) _ _
              (λ runs. run_on-IsKept s want dt now t f (running-IsPlain t h runs))
              (λ waits. rests)))
