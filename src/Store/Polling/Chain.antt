-- ===== src/Store/Polling/Chain.antt =====
-- There is at most one poll chain.
use transmission_ui.Prelude.{
  if-cases, ◌+◌, ◌≤◌, ℕ, zero, suc, length, get_elem?, List, [], ◌∷◌, Bool-cases, Option, refl,
  is_some, ◌≡◌, inl, inr, Bool, true, false, ◌||◌, none, some, arith,
}
use transmission_ui.Store.{Timer, Pass, Poll, World}
use transmission_ui.Store.Url.{Query}
use transmission_ui.Store.Initial.{Stored, initial}
use transmission_ui.Store.Polling.{
  cancelled, begin_pass, space_arrives, session_arrives, polling_starts,
}
use transmission_ui.Store.Actions.{
  toast, toast_expires, set_view_order, select_all_visible, dismiss_notice,
}
use transmission_ui.Store.Removal.{stop_removal, dismiss_removal}
use transmission_ui.Store.Steps.{
  remove_at, resumed, fired, set_view, Step, polling_begins, poll_answers, poll_rejects,
  timer_fires, tab_shown, refreshes, session_read, detail_read, space_read, call_ends, shows_toast,
  hides_toast, focuses, opens_tab, shows_list, selects_all, dismisses, sets_view, removes,
  removal_answered, stops, dismisses_removal, Reach, here, next,
}
use transmission_ui.Store.Polling.Effects.{
  once, forced_once, poll_once-poll, refresh_now-poll, settled, poll_succeeds-poll, poll_fails-poll,
  focus-poll, set_inspector_tab-poll, Refreshed, removal_replies-poll, remove_sequence-poll,
  run_ends-poll,
}

-- The timers that are armed: none, or the one whose handle the module remembers.
abbrev pub IsHeld : Option ℕ → List Timer → Type 0
IsHeld h [] = Unit {0}
IsHeld h (t ∷ []) = h ≡ some t.handle
IsHeld h (t ∷ u ∷ ts) = ⊥

-- While `inFlight` is set one pass waits and no timer is armed; else no pass waits and at most the one timer is
-- armed that the module can still cancel. Another pass is asked for only while one is in flight.
pub record IsChain (p : Poll) : Type 0 where
  pub flying : p.in_flight ≡ true → (length p.passes ≡ 1) × (p.armed ≡ [])
  pub resting : p.in_flight ≡ false → (p.passes ≡ []) × IsHeld p.timer p.armed
  pub again : p.poll_again ≡ true → p.in_flight ≡ true

cancelled-IsHeld : (h : Option ℕ) (ts : List Timer) → IsHeld h ts → cancelled h ts ≡ []
cancelled-IsHeld none [] c = refl
cancelled-IsHeld (some h) [] c = refl
cancelled-IsHeld none (t ∷ []) c = cc
cancelled-IsHeld (some h) (t ∷ []) c = ground arith
cancelled-IsHeld none (t ∷ (_ ∷ _)) c = elim c [ ]
cancelled-IsHeld (some h) (t ∷ (_ ∷ _)) c = elim c [ ]

-- What a pass finds when it begins.
begun-IsChain :
    (p : Poll)
    → p.passes ≡ []
    → IsHeld p.timer p.armed
    → p.poll_again ≡ false
    → IsChain (begin_pass p)
unfolding begin_pass
begun-IsChain p alone held idle = record {
  flying = λ f. (rw alone refl, cancelled-IsHeld p.timer p.armed held);
  resting = λ f. cc;
  again = λ f. refl;
}

pub once-IsChain : (p : Poll) → IsChain p → IsChain (once p)
once-IsChain p c =
    if-cases IsChain p.in_flight _ _
      (λ busy. record {
        flying = λ f. c.flying busy;
        resting = λ f. absurd (ground (arith, busy, f));
        again = λ f. busy;
      })
      (λ free.
        begun-IsChain p (c.resting free).0 (c.resting free).1 (ground (arith, c.again, free)))

forced_once-IsChain : (p : Poll) → IsChain p → IsChain (forced_once p)
forced_once-IsChain p c =
    once-IsChain (record p { force_full = true })
      (record { flying = c.flying; resting = c.resting; again = c.again })

-- The end of the only pass, where no timer is armed.
settled-IsChain :
    (unauth hidden : Bool) (q : Poll)
    → q.passes ≡ []
    → q.armed ≡ []
    → IsChain (settled unauth hidden q)
unfolding begin_pass
settled-IsChain unauth hidden q alone unarmed =
    let p : Poll = record q { ticks = q.ticks + 1; in_flight = false } in
    let held : IsHeld q.timer q.armed = rw unarmed tt in
    if-cases IsChain q.poll_again _ _
      (λ more. begun-IsChain (record p { poll_again = false }) alone held refl)
      (λ last.
        if-cases IsChain unauth _ _
          (λ out. record {
            flying = λ f. cc;
            resting = λ f. (alone, held);
            again = λ f. absurd (ground (arith, last, f));
          })
          (λ stays. record {
            flying = λ f. cc;
            resting = λ f. (alone, rw unarmed refl);
            again = λ f. absurd (ground (arith, last, f));
          }))

Refreshed-IsChain : (p q : Poll) → Refreshed p q → IsChain p → IsChain q
Refreshed-IsChain p q (inl same) c = rw same c
Refreshed-IsChain p q (inr forced) c = rw forced (forced_once-IsChain p c)

remove_at-only :
    {A : Type 0} (i : ℕ) (xs : List A) (x : A)
    → get_elem? xs i ≡ some x
    → length xs ≤ 1
    → remove_at i xs ≡ []
remove_at-only i [] x e h = refl
remove_at-only zero (y ∷ []) x e h = refl
remove_at-only (suc i) (y ∷ []) x e h = cc
remove_at-only i (y ∷ z ∷ xs) x e h = absurd (omega (arith, h))

-- The pass that goes on is the only one.
pub resumed_alone :
    (p : Poll) (i : ℕ) (x : Pass)
    → IsChain p
    → get_elem? p.passes i ≡ some x
    → (remove_at i p.passes ≡ []) × (p.armed ≡ [])
resumed_alone p i x c e = elim (Bool-cases p.in_flight) [
  | inl busy ↦ (remove_at-only i p.passes x e (omega (arith, (c.flying busy).0)), (c.flying busy).1)
  | inr free ↦ absurd (nothing_there p.passes (c.resting free).0 e)
]
  where
    nothing_there : (ps : List Pass) → ps ≡ [] → get_elem? ps i ≡ some x → ⊥
    nothing_there [] q e = cc
    nothing_there (y ∷ ps) q e = cc

-- A timer runs out only while no pass is in flight, and it was the only one.
fired-IsChain :
    (p : Poll) (i : ℕ) (t : Timer)
    → IsChain p
    → get_elem? p.armed i ≡ some t
    → IsChain (record p { armed = remove_at i p.armed })
fired-IsChain p i t c e = record {
  flying = λ busy. ((c.flying busy).0, rw (c.flying busy).1 refl);
  resting = λ free. ((c.resting free).0, still_held p.armed (c.resting free).1);
  again = c.again;
}
  where
    still_held : (ts : List Timer) → IsHeld p.timer ts → IsHeld p.timer (remove_at i ts)
    still_held [] h = tt
    still_held (u ∷ []) h = one_left i h
      where
        one_left : (k : ℕ) → p.timer ≡ some u.handle → IsHeld p.timer (remove_at k (u ∷ []))
        one_left zero h = tt
        one_left (suc k) h = h
    still_held (u ∷ (_ ∷ _)) h = elim h [ ]

Step-IsChain : {w v : World} → Step w v → IsChain w.poll → IsChain v.poll
unfolding polling_starts session_arrives space_arrives toast toast_expires set_view_order
    select_all_visible dismiss_notice set_view stop_removal dismiss_removal
Step-IsChain (polling_begins w) c =
    rw
      (poll_once-poll
        (record w { poll = record (w.poll) { session_fresh = is_some w.snap.session } }))
      (once-IsChain _ (record { flying = c.flying; resting = c.resting; again = c.again }))
Step-IsChain (poll_answers w i p a hidden e) c =
    let (alone, unarmed) = resumed_alone w.poll i p c e in
    rw (poll_succeeds-poll p a hidden (resumed i w)) (
      settled-IsChain false hidden (record ((resumed i w).poll) { session_fresh = false }) alone
        unarmed)
Step-IsChain (poll_rejects w i p msg hidden e) c =
    let (alone, unarmed) = resumed_alone w.poll i p c e in
    rw (poll_fails-poll p msg hidden (resumed i w)) (
      settled-IsChain _ hidden
        (record ((resumed i w).poll) { force_full = p.forced || w.poll.force_full }) alone unarmed)
Step-IsChain (timer_fires w i t e) c =
    rw (poll_once-poll (fired i w)) (once-IsChain (fired i w).poll (fired-IsChain w.poll i t c e))
Step-IsChain (tab_shown w) c = rw (poll_once-poll w) (once-IsChain w.poll c)
Step-IsChain (refreshes w) c = rw (refresh_now-poll w) (forced_once-IsChain w.poll c)
Step-IsChain (session_read w x) c = c
Step-IsChain (detail_read w r d e) c = c
Step-IsChain (space_read w r answer) c = c
Step-IsChain (call_ends w label r) c = Refreshed-IsChain w.poll _ (run_ends-poll label r w) c
Step-IsChain (shows_toast w msg) c = c
Step-IsChain (hides_toast w) c = c
Step-IsChain (focuses w id) c = rw (focus-poll id w) c
Step-IsChain (opens_tab w tab) c = rw (set_inspector_tab-poll tab w) c
Step-IsChain (shows_list w ids) c = c
Step-IsChain (selects_all w) c = c
Step-IsChain (dismisses w writable key) c = c
Step-IsChain (sets_view w v) c = c
Step-IsChain (removes w ids) c = Refreshed-IsChain w.poll _ (remove_sequence-poll ids w) c
Step-IsChain (removal_answered w run r found) c =
    Refreshed-IsChain w.poll _ (removal_replies-poll run r w) c
Step-IsChain (stops w) c = c
Step-IsChain (dismisses_removal w) c = c

Reach-from-IsChain : {s w : World} → Reach s w → IsChain s.poll → IsChain w.poll
Reach-from-IsChain here c = c
Reach-from-IsChain (next r st) c = Step-IsChain st (Reach-from-IsChain r c)

-- In every store that events lead to from the first one there is at most one poll chain: while `inFlight` is set
-- just one pass waits and no timer is armed, and else no pass waits and at most one timer is armed, whose handle
-- the module remembers. Only while a pass is in flight another one is asked for.
pub Reach-IsChain : (q : Query) (st : Stored) (w : World) → Reach (initial q st) w → IsChain w.poll
unfolding initial
Reach-IsChain q st w r =
    Reach-from-IsChain r (record { flying = λ f. cc; resting = λ f. (refl, tt); again = λ f. cc })
