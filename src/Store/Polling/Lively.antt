-- ===== src/Store/Polling/Lively.antt =====
-- The poll chain goes on while the user is signed in, and a full pass that was asked for is not
-- forgotten.
use transmission_ui.Prelude.{
  if-cases, any, length, length-append, ◌≤◌, ℕ, zero, suc, get_elem?, List, [], ◌∷◌, ◌++◌, ◌∙◌,
  Bool-cases, is_some, codes, text_eq, ◌≡◌, refl, ◌⊎◌, inl, inr, Bool, true, false, ◌||◌, some,
  arith,
}
use transmission_ui.Store.{Pass, Poll, World}
use transmission_ui.Store.Polling.{begin_pass, space_arrives, session_arrives, polling_starts}
use transmission_ui.Store.Actions.{
  toast, toast_expires, set_view_order, select_all_visible, dismiss_notice,
}
use transmission_ui.Store.Removal.{stop_removal, dismiss_removal}
use transmission_ui.Store.Steps.{
  remove_at, resumed, fired, set_view, Step, polling_begins, poll_answers, poll_rejects,
  timer_fires, tab_shown, refreshes, session_read, detail_read, space_read, call_ends, shows_toast,
  hides_toast, focuses, opens_tab, shows_list, selects_all, dismisses, sets_view, removes,
  removal_answered, stops, dismisses_removal,
}
use transmission_ui.Store.Polling.Effects.{
  once, forced_once, poll_once-poll, refresh_now-poll, settled, poll_succeeds-poll, poll_fails-poll,
  focus-poll, set_inspector_tab-poll, Refreshed, removal_replies-poll, remove_sequence-poll,
  run_ends-poll,
}
use transmission_ui.Store.Polling.Chain.{IsChain, resumed_alone}

-- The chain goes on: a pass is in flight and waits for its answer, or none is in flight and a timer is armed.
abbrev pub IsAlive : Poll → Type 0
IsAlive p =
    ((p.in_flight ≡ true) × (1 ≤ length p.passes)) ⊎ ((p.in_flight ≡ false) × (1 ≤ length p.armed))

begun-IsAlive : (p : Poll) → IsAlive (begin_pass p)
unfolding begin_pass
begun-IsAlive p = inl (refl, length-snoc p.passes _)
  where
    length-snoc : (ps : List Pass) (x : Pass) → 1 ≤ length (ps ++ x ∷ [])
    length-snoc ps x = omega (arith, length-append ps (x ∷ []))

-- A pass that is in flight waits, or none is.
abbrev Waits : Poll → Type 0
Waits p = p.in_flight ≡ true → 1 ≤ length p.passes

IsAlive-Waits : (p : Poll) → IsAlive p → Waits p
IsAlive-Waits p (inl (busy, waits)) = λ f. waits
IsAlive-Waits p (inr (free, armed)) = λ f. absurd (ground (arith, free, f))

once-IsAlive : (p : Poll) → Waits p → IsAlive (once p)
once-IsAlive p waits =
    if-cases IsAlive p.in_flight _ _ (λ busy. inl (busy, waits busy)) (λ free. begun-IsAlive p)

settled-IsAlive : (hidden : Bool) (q : Poll) → IsAlive (settled false hidden q)
settled-IsAlive hidden q =
    if-cases IsAlive q.poll_again _ _ (λ more. begun-IsAlive _)
      (λ last. inr (refl, omega (arith, length-append q.armed (_ ∷ []))))

Refreshed-IsAlive : (p q : Poll) → Refreshed p q → IsAlive p → IsAlive q
Refreshed-IsAlive p q (inl same) c = rw same c
Refreshed-IsAlive p q (inr forced) c =
    rw forced (once-IsAlive (record p { force_full = true }) (IsAlive-Waits p c))

kept-IsAlive : (p q : Poll) {X : Type 0} → Refreshed p q → IsAlive p → IsAlive q ⊎ X
kept-IsAlive p q r c = inl (Refreshed-IsAlive p q r c)

-- The event is a failed pass of a user who is not signed in.
abbrev pub SignsOut : {w v : World} → Step w v → Type 0
SignsOut (poll_rejects w i p msg hidden e) = text_eq msg (codes "unauthorized") ≡ true
SignsOut _ = ⊥

rejected-IsAlive :
    (unauth hidden : Bool) (q : Poll) → (IsAlive (settled unauth hidden q)) ⊎ (unauth ≡ true)
rejected-IsAlive true hidden q = inr refl
rejected-IsAlive false hidden q = inl (settled-IsAlive hidden q)

-- The poll chain, once begun, goes on after every event, whatever fails, except after a pass that
-- failed because the user is signed out: a pass is in flight and waits for its answer, or `inFlight` is reset and
-- a timer is armed.
pub Step-IsAlive : {w v : World} (st : Step w v) → IsAlive w.poll → IsAlive v.poll ⊎ SignsOut st
unfolding polling_starts session_arrives space_arrives toast toast_expires set_view_order
    select_all_visible dismiss_notice set_view stop_removal dismiss_removal
Step-IsAlive (polling_begins w) c = inl (
    rw
      (poll_once-poll
        (record w { poll = record (w.poll) { session_fresh = is_some w.snap.session } }))
      (once-IsAlive (record (w.poll) { session_fresh = is_some w.snap.session })
        (IsAlive-Waits w.poll c)))
Step-IsAlive (poll_answers w i p a hidden e) c = inl (
    rw (poll_succeeds-poll p a hidden (resumed i w))
      (settled-IsAlive hidden (record ((resumed i w).poll) { session_fresh = false })))
Step-IsAlive (poll_rejects w i p msg hidden e) c = rw (poll_fails-poll p msg hidden (resumed i w)) (
    rejected-IsAlive (text_eq msg (codes "unauthorized")) hidden
      (record ((resumed i w).poll) { force_full = p.forced || w.poll.force_full }))
Step-IsAlive (timer_fires w i t e) c =
    inl (rw (poll_once-poll (fired i w)) (once-IsAlive (fired i w).poll (IsAlive-Waits w.poll c)))
Step-IsAlive (tab_shown w) c =
    inl (rw (poll_once-poll w) (once-IsAlive w.poll (IsAlive-Waits w.poll c)))
Step-IsAlive (refreshes w) c = inl (
    rw (refresh_now-poll w)
      (once-IsAlive (record (w.poll) { force_full = true }) (IsAlive-Waits w.poll c)))
Step-IsAlive (session_read w x) c = inl c
Step-IsAlive (detail_read w r d e) c = inl c
Step-IsAlive (space_read w r answer) c = inl c
Step-IsAlive (call_ends w label r) c = kept-IsAlive w.poll _ (run_ends-poll label r w) c
Step-IsAlive (shows_toast w msg) c = inl c
Step-IsAlive (hides_toast w) c = inl c
Step-IsAlive (focuses w id) c = rw (focus-poll id w) (inl c)
Step-IsAlive (opens_tab w tab) c = rw (set_inspector_tab-poll tab w) (inl c)
Step-IsAlive (shows_list w ids) c = inl c
Step-IsAlive (selects_all w) c = inl c
Step-IsAlive (dismisses w writable key) c = inl c
Step-IsAlive (sets_view w v) c = inl c
Step-IsAlive (removes w ids) c = kept-IsAlive w.poll _ (remove_sequence-poll ids w) c
Step-IsAlive (removal_answered w run r found) c =
    kept-IsAlive w.poll _ (removal_replies-poll run r w) c
Step-IsAlive (stops w) c = inl c
Step-IsAlive (dismisses_removal w) c = inl c

-- A full pass is owed: the flag is set, or a pass that waits was begun on it.
abbrev pub IsOwed : Poll → Type 0
IsOwed p = (p.force_full ≡ true) ⊎ (any (λ x. Pass.forced x) p.passes ≡ true)

-- The event is the success of a forced pass with no full pass asked for since it began.
abbrev pub PaysFull : {w v : World} → Step w v → Type 0
PaysFull (poll_answers w i p a hidden e) = (p.forced ≡ true) × (w.poll.force_full ≡ false)
PaysFull _ = ⊥

any-append :
    (ps qs : List Pass)
    → any (λ x. Pass.forced x) (ps ++ qs)
      ≡ (any (λ x. Pass.forced x) ps || any (λ x. Pass.forced x) qs)
any-append [] qs = refl
any-append (p ∷ ps) qs = ground (arith, any-append ps qs)

begun-IsOwed : (p : Poll) → IsOwed p → IsOwed (begin_pass p)
unfolding begin_pass
begun-IsOwed p (inl set) = inr (any-append p.passes _ ∙ (ground (arith, set)))
begun-IsOwed p (inr waits) = inr (any-append p.passes _ ∙ (ground (arith, waits)))

once-IsOwed : (p : Poll) → IsOwed p → IsOwed (once p)
once-IsOwed p o = if-cases IsOwed p.in_flight _ _ (λ busy. o) (λ free. begun-IsOwed p o)

settled-IsOwed :
    (unauth hidden : Bool) (q : Poll) → q.force_full ≡ true → IsOwed (settled unauth hidden q)
settled-IsOwed unauth hidden q o =
    if-cases IsOwed q.poll_again _ _ (λ more. begun-IsOwed _ (inl o))
      (λ last. if-cases IsOwed unauth _ _ (λ out. inl o) (λ stays. inl o))

forced_once-IsOwed : (p : Poll) → IsOwed (forced_once p)
forced_once-IsOwed p = once-IsOwed (record p { force_full = true }) (inl refl)

Refreshed-IsOwed : (p q : Poll) {X : Type 0} → Refreshed p q → IsOwed p → IsOwed q ⊎ X
Refreshed-IsOwed p q (inl same) o = inl (rw same o)
Refreshed-IsOwed p q (inr forced) o = inl (rw forced (forced_once-IsOwed p))

-- The pass that goes on is the one that was begun on the flag.
resumed_forced :
    (i : ℕ) (ps : List Pass) (p : Pass)
    → get_elem? ps i ≡ some p
    → remove_at i ps ≡ []
    → any (λ x. Pass.forced x) ps ≡ true
    → p.forced ≡ true
resumed_forced i [] p e alone h = cc
resumed_forced zero (q ∷ ps) p e alone h = ground (arith, alone)
resumed_forced (suc i) (q ∷ ps) p e alone h = cc

forced_of :
    (i : ℕ) (p : Pass) (q : Poll)
    → IsChain q
    → get_elem? q.passes i ≡ some p
    → IsOwed q
    → (q.force_full ≡ true) ⊎ (p.forced ≡ true)
forced_of i p q k e (inl set) = inl set
forced_of i p q k e (inr waits) =
    inr (resumed_forced i q.passes p e (resumed_alone q i p k e).0 waits)

answered-IsOwed :
    (i : ℕ) (p : Pass) (hidden : Bool) (q : Poll)
    → (q.force_full ≡ true) ⊎ (p.forced ≡ true)
    → IsOwed
        (settled false hidden (record q { passes = remove_at i q.passes; session_fresh = false }))
      ⊎ ((p.forced ≡ true) × (q.force_full ≡ false))
answered-IsOwed i p hidden q o = elim (Bool-cases q.force_full) [
  | inl set ↦ inl (
      settled-IsOwed false hidden
        (record q { passes = remove_at i q.passes; session_fresh = false }) set)
  | inr clear ↦ inr (ground arith, clear)
]

rejected-IsOwed :
    (i : ℕ) (p : Pass) (unauth hidden : Bool) (q : Poll)
    → (q.force_full ≡ true) ⊎ (p.forced ≡ true)
    → IsOwed (
        settled unauth hidden
          (record q { passes = remove_at i q.passes; force_full = p.forced || q.force_full }))
rejected-IsOwed i p unauth hidden q o =
    settled-IsOwed unauth hidden
      (record q { passes = remove_at i q.passes; force_full = p.forced || q.force_full })
      (ground arith)

-- A full pass that was asked for stays owed through every event, failed passes among them, until a
-- forced pass succeeds that was begun after the last request for one.
pub Step-IsOwed :
    {w v : World} (st : Step w v) → IsChain w.poll → IsOwed w.poll → IsOwed v.poll ⊎ PaysFull st
unfolding polling_starts session_arrives space_arrives toast toast_expires set_view_order
    select_all_visible dismiss_notice set_view stop_removal dismiss_removal
Step-IsOwed (polling_begins w) k c = inl (
    rw
      (poll_once-poll
        (record w { poll = record (w.poll) { session_fresh = is_some w.snap.session } }))
      (once-IsOwed (record (w.poll) { session_fresh = is_some w.snap.session }) c))
Step-IsOwed (poll_answers w i p a hidden e) k c =
    rw (poll_succeeds-poll p a hidden (resumed i w))
      (answered-IsOwed i p hidden w.poll (forced_of i p w.poll k e c))
Step-IsOwed (poll_rejects w i p msg hidden e) k c = inl (
    rw (poll_fails-poll p msg hidden (resumed i w)) (
      rejected-IsOwed i p (text_eq msg (codes "unauthorized")) hidden w.poll
        (forced_of i p w.poll k e c)))
Step-IsOwed (timer_fires w i t e) k c =
    inl (rw (poll_once-poll (fired i w)) (once-IsOwed (fired i w).poll c))
Step-IsOwed (tab_shown w) k c = inl (rw (poll_once-poll w) (once-IsOwed w.poll c))
Step-IsOwed (refreshes w) k c = inl (rw (refresh_now-poll w) (forced_once-IsOwed w.poll))
Step-IsOwed (session_read w x) k c = inl c
Step-IsOwed (detail_read w r d e) k c = inl c
Step-IsOwed (space_read w r answer) k c = inl c
Step-IsOwed (call_ends w label r) k c = Refreshed-IsOwed w.poll _ (run_ends-poll label r w) c
Step-IsOwed (shows_toast w msg) k c = inl c
Step-IsOwed (hides_toast w) k c = inl c
Step-IsOwed (focuses w id) k c = rw (focus-poll id w) (inl c)
Step-IsOwed (opens_tab w tab) k c = rw (set_inspector_tab-poll tab w) (inl c)
Step-IsOwed (shows_list w ids) k c = inl c
Step-IsOwed (selects_all w) k c = inl c
Step-IsOwed (dismisses w writable key) k c = inl c
Step-IsOwed (sets_view w v) k c = inl c
Step-IsOwed (removes w ids) k c = Refreshed-IsOwed w.poll _ (remove_sequence-poll ids w) c
Step-IsOwed (removal_answered w run r found) k c =
    Refreshed-IsOwed w.poll _ (removal_replies-poll run r w) c
Step-IsOwed (stops w) k c = inl c
Step-IsOwed (dismisses_removal w) k c = inl c
