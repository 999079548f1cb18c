-- ===== src/Sim/Announce/Again.antt =====
-- The loop of announce: who announces, and that a second look in the same second changes nothing.
use transmission_ui.Prelude.{
  if-cases, Text, ℕ, ◌+◌, ◌≤◌, ◌≡◌, refl, ap, Bool, true, false, ◌||◌, List, [], ◌∷◌, arith,
}
use transmission_ui.Types.{stopped, status_eq, TrackerStat}
use transmission_ui.Types.Detail.{TorrentDetail}
use transmission_ui.Sim.Rand.Shuffles.{int-within}
use transmission_ui.Sim.Announce.{
  TrackerDef, is_due, some_announced, is_ok, announce_one, announce_each, announce,
}

not_yet :
    (b : Bool) (now : ℕ) (s : TrackerStat)
    → now + 240 ≤ s.next_announce_time
    → is_due b now s ≡ false
not_yet b now s h = ground (arith, h)

or_first : (a b : Bool) → a ≡ true → (a || b) ≡ true
or_first a b h = ground arith

either_true : (a b : Bool) → b ≡ true → (a || b) ≡ true
either_true a b h = ground arith

or_keeps :
    (a b c d : Bool)
    → (a ≡ true → b ≡ true)
    → (c ≡ true → d ≡ true)
    → (a || c) ≡ true
    → (b || d) ≡ true
or_keeps a b c d f g h = ground (arith, f, g, h)

-- One that is held back, or not yet due, is so when more have announced.
still_waits :
    (s : TrackerStat) (now : ℕ) (a b : Bool)
    → (a ≡ true → b ≡ true)
    → is_due a now s ≡ false
    → is_due b now s ≡ false
still_waits s now a b h w = ground (arith, h, w)

module _ (host_of : Text → Text) (defs : List TrackerDef) where
  -- A tracker that has announced just now waits at least four minutes.
  announced_one :
      (down : List (Text × ℕ)) (now : ℕ) (s : TrackerStat) (state : ℕ)
      → (let u = (announce_one host_of defs down now s state).0 in
          (u.has_announced ≡ true)
          × (now + 240 ≤ u.next_announce_time)
          × (u.next_announce_time ≤ now + 360))
  unfolding announce_one
  announced_one down now s state =
      let (least, most) = int-within 240 360 state (omega arith) in
      if-cases
        (λ (r : TrackerStat × ℕ).
          (r.0.has_announced ≡ true)
          × (now + 240 ≤ r.0.next_announce_time)
          × (r.0.next_announce_time ≤ now + 360))
        (is_ok host_of defs down s.announce) _ _
        (λ ok. (refl, omega (arith, least), omega (arith, most)))
        (λ failing. (refl, omega (arith, least), omega (arith, most)))

  -- One that has announced has done so after the loop too.
  some_announced-keeps :
      (down : List (Text × ℕ)) (now : ℕ) (earlier : Bool) (ss : List TrackerStat) (state : ℕ)
      → some_announced ss ≡ true
      → some_announced (announce_each host_of defs down now earlier ss state).0 ≡ true
  unfolding announce_each
  some_announced-keeps down now earlier [] state h = h
  some_announced-keeps down now earlier (s ∷ ss) state h =
      let (told, a) = announce_one host_of defs down now s state in
      if-cases (λ (r : List TrackerStat × ℕ). some_announced r.0 ≡ true)
        (is_due (earlier || some_announced (s ∷ ss)) now s) _ _
        (λ due. or_first told.has_announced _ (announced_one down now s state).0)
        (λ waits.
          or_keeps s.has_announced s.has_announced (some_announced ss) _ (λ e. e)
            (some_announced-keeps down now (earlier || s.has_announced) ss state) h)

  -- The loop passes over a tracker that is not due.
  announce_each-skip :
      (down : List (Text × ℕ)) (now : ℕ) (before : Bool) (s : TrackerStat) (us : List TrackerStat)
      (later : ℕ)
      → is_due (before || some_announced (s ∷ us)) now s ≡ false
      → announce_each host_of defs down now (before || s.has_announced) us later ≡ (us, later)
      → announce_each host_of defs down now before (s ∷ us) later ≡ (s ∷ us, later)
  unfolding announce_each
  announce_each-skip down now before s us later waits rest =
      rw waits (ap (λ (r : List TrackerStat × ℕ). (s ∷ r.0, r.1)) rest)

  -- What the loop left is not due for it again.
  announce_each-again :
      (down : List (Text × ℕ)) (now : ℕ) (earlier before : Bool) (ss : List TrackerStat)
      (state later : ℕ)
      → (earlier ≡ true → before ≡ true)
      → (let us = (announce_each host_of defs down now earlier ss state).0 in
          announce_each host_of defs down now before us later ≡ (us, later))
  unfolding announce_each
  announce_each-again down now earlier before [] state later h = refl
  announce_each-again down now earlier before (s ∷ ss) state later h =
      let (told, a) = announce_one host_of defs down now s state in
      let us = (announce_each host_of defs down now true ss a).0 in
      let vs = (announce_each host_of defs down now (earlier || s.has_announced) ss state).0 in
      if-cases
        (λ (r : List TrackerStat × ℕ).
          announce_each host_of defs down now before r.0 later ≡ (r.0, later))
        (is_due (earlier || some_announced (s ∷ ss)) now s) _ _
        (λ due.
          announce_each-skip down now before told us later
            (not_yet (before || some_announced (told ∷ us)) now told
              (announced_one down now s state).1)
            (announce_each-again down now true (before || told.has_announced) ss a later
              (λ e. either_true before told.has_announced (announced_one down now s state).0)))
        (λ waits.
          announce_each-skip down now before s vs later
            (still_waits s now (earlier || some_announced (s ∷ ss))
              (before || some_announced (s ∷ vs))
              (or_keeps earlier before (some_announced (s ∷ ss)) (some_announced (s ∷ vs)) h (
                or_keeps s.has_announced s.has_announced (some_announced ss) (some_announced vs)
                  (λ e. e) (some_announced-keeps down now (earlier || s.has_announced) ss state)))
              waits)
            (announce_each-again down now (earlier || s.has_announced) (before || s.has_announced)
              ss state later (or_keeps earlier before s.has_announced s.has_announced h (λ e. e))))

  -- A second announce in the same second changes nothing and draws nothing.
  pub announce-again :
      (down : List (Text × ℕ)) (now : ℕ) (t : TorrentDetail) (state later : ℕ)
      → (let u = (announce host_of defs down now t state).0 in
          announce host_of defs down now u later ≡ (u, later))
  unfolding announce
  announce-again down now t state later =
      if-cases (λ (r : TorrentDetail × ℕ). announce host_of defs down now r.0 later ≡ (r.0, later))
        (status_eq t.status stopped) _ _ (λ rests. rw rests refl)
        (λ runs.
          let again =
            announce_each-again down now false false t.tracker_stats state later (λ e. e) in
          rw runs
            (ap (λ (r : List TrackerStat × ℕ). (record t { tracker_stats = r.0 }, r.1)) again))
