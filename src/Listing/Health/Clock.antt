-- ===== src/Listing/Health/Clock.antt =====
-- The clock of an outage, of ui/src/lib/model.ts: when a tracker counts as down.
use transmission_ui.Prelude.{
  ltb, leb, ◌==◌, Bool-cases, Option-cases, Text, text_eq_refl, ℕ, ◌≤◌, ◌≡◌, refl, inl, inr, true,
  false, ◌&&◌, ◌||◌, Option, none, some, List, arith,
}
use transmission_ui.Prelude.Keyed.{nat_eq, text_eq_inst, lookup}
use transmission_ui.Prelude.Maps.{lookup-insert}
use transmission_ui.Listing.Health.{
  down, TrackerHealth, HostCount, earlier, all_failing, remember_failing, clock_after, long_ago,
  judge, health_of,
}

long_ago-earlier :
    (now : ℕ) (a b : Option ℕ) → long_ago now (earlier a b) ≡ (long_ago now a || long_ago now b)
long_ago-earlier now none b = refl
long_ago-earlier now (some a) none = ground arith
long_ago-earlier now (some a) (some b) = ground arith

long_ago-later :
    (now later : ℕ) (a : Option ℕ) → now ≤ later → long_ago now a ≡ true → long_ago later a ≡ true
long_ago-later now later none h k = k
long_ago-later now later (some a) h k = ground arith

lookup-remember_failing :
    (host : Text) (since : Option ℕ) (f : List (Text × ℕ))
    → lookup host (remember_failing host since f) ≡ earlier since (lookup host f)
lookup-remember_failing host none f = refl
lookup-remember_failing host (some s) f = elim (Option-cases (lookup host f)) [
  | inl nothing ↦
      rw (nothing, remember_failing)
        (ground (arith, lookup-insert host host s f, text_eq_refl host))
  | inr (cur, e) ↦ elim (Bool-cases (leb cur s)) [
    | inl older ↦ rw (e, remember_failing, older, e) (ground arith)
    | inr newer ↦
        rw (e, remember_failing, newer)
          (ground (arith, lookup-insert host host s f, text_eq_refl host))
  ]
]

clock-failing :
    (host : Text) (h : HostCount) (f : List (Text × ℕ))
    → all_failing h ≡ true
    → lookup host (clock_after host h f) ≡ earlier h.since (lookup host f)
clock-failing host h f fails = rw (fails, clock_after) (lookup-remember_failing host h.since f)

judge-down :
    (now : ℕ) (h : HostCount) (since : Option ℕ)
    → judge now h since ≡ down
    → long_ago now since ≡ true
unfolding judge
judge-down now h since e = ground arith

down-judge :
    (now : ℕ) (h : HostCount) (since : Option ℕ)
    → (ltb 0 h.rejected_ && (h.rejected_ == h.announced)) ≡ false
    → all_failing h ≡ true
    → long_ago now since ≡ true
    → judge now h since ≡ down
unfolding judge
down-judge now h since r fails old = rw (r, judge, fails, old) refl

-- A new announce does not reset the clock: a tracker that is down and that all its torrents still fail to
-- announce to at the next look is down then too, whatever the times of the new failures, unless all of
-- them reject the client.
pub health_of-down :
    (host : Text) (h1 h2 : HostCount) (f : List (Text × ℕ)) (now later : ℕ)
    → now ≤ later
    → all_failing h1 ≡ true
    → all_failing h2 ≡ true
    → (ltb 0 h2.rejected_ && (h2.rejected_ == h2.announced)) ≡ false
    → TrackerHealth.state (health_of now host h1 (clock_after host h1 f)) ≡ down
    → TrackerHealth.state (health_of later host h2 (clock_after host h2 (clock_after host h1 f)))
      ≡ down
unfolding health_of
health_of-down host h1 h2 f now later time fails1 fails2 r d =
    let f1 = clock_after host h1 f in
    let f2 = clock_after host h2 f1 in
    let first = clock-failing host h1 f fails1 in
    let second = clock-failing host h2 f1 fails2 in
    let old1 : long_ago now (lookup host f1) ≡ true = ground (
      arith,
      judge-down now h1 (earlier h1.since (lookup host f1)) d,
      long_ago-earlier now h1.since (lookup host f1),
      first,
      long_ago-earlier now h1.since (lookup host f),
    ) in
    let old2 = long_ago-later now later (lookup host f1) time old1 in
    let old : long_ago later (earlier h2.since (lookup host f2)) ≡ true = ground (
      arith,
      old2,
      second,
      long_ago-earlier later h2.since (lookup host f1),
      long_ago-earlier later h2.since (lookup host f2),
    ) in
    down-judge later h2 (earlier h2.since (lookup host f2)) r fails2 old
