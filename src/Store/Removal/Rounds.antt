-- ===== src/Store/Removal/Rounds.antt =====
-- The loop of `removeSequence` keeps the invariant of the tally, from its head to the next request or
-- the end.
use transmission_ui.Prelude.{
  ℕ, suc, ◌+◌, ◌≡◌, refl, sym, subst, ap, ◌∙◌, ◌⊎◌, inl, inr, true, List, [], ◌∷◌, ◌++◌, Option,
  none, some, arith, ◌==◌, ==_iff, ==_refl, Bool-cases, Option-cases, All-append, length,
  append_assoc, length-append,
}
use transmission_ui.Store.{World, Removing, Run}
use transmission_ui.Store.Steps.{find_run}
use transmission_ui.Store.Frames.{RemovalPart, removal_part, refresh_now-removal_part}
use transmission_ui.Store.Polling.{refresh_now}
use transmission_ui.Store.Actions.{toast}
use transmission_ui.Store.Removal.{
  mine, patch_tally, send_remove, next_removal, finish_removal, clear_tally,
}
use transmission_ui.Store.Removal.Tally.{
  requests, Progress, Fits, IsSound, Between, IsReady, find_run-append,
}

-- At the end of the loop: the batch is done, or the tally is not this run's, or it was stopped.
abbrev IsOver : ℕ → List ℕ → Option Removing → Type 0
IsOver token rest none = Unit {0}
IsOver token rest (some r) = (r.token ≡ token) → ((r.stopped ≡ true) ⊎ (rest ≡ []))

done-Progress :
    (r : Removing) (asked rest : List ℕ)
    → r.done + length rest ≡ length r.ids
    → asked ++ rest ≡ r.ids
    → (r.stopped ≡ true) ⊎ (rest ≡ [])
    → Progress r none asked
done-Progress r asked rest n a over =
    let total = length-append asked rest in (omega (arith, n, total, ap length a), (rest, a, over))

over-Fits :
    (token : ℕ) (rest : List ℕ) (o : Option Removing) (p : RemovalPart)
    → find_run token p.runs ≡ none
    → Between token rest o p
    → IsOver token rest o
    → Fits o p
over-Fits token rest none p absent b over = tt
over-Fits token rest (some r) p absent b over = elim (Bool-cases (r.token == token)) [
  | inl same ↦
      let q = (==_iff r.token token).0 same in
      let (n, a) = rw same at (b.2) in
      let a' : requests r.token p.sent ++ rest ≡ r.ids = rw q a in
      let none_left : find_run r.token p.runs ≡ none = rw q absent in
      (b.0, b.1, rw none_left (done-Progress r (requests r.token p.sent) rest n a' (over q)))
  | inr other ↦ (b.0, b.1, rw other at (b.2))
]

over-IsSound :
    (token : ℕ) (rest : List ℕ) (p : RemovalPart)
    → IsReady token rest p
    → IsOver token rest p.removing
    → IsSound p
over-IsSound token rest p h over = record {
  runs_bound = h.runs_bound;
  sent_bound = h.sent_bound;
  fits = over-Fits token rest p.removing p h.absent h.fits over;
}

-- Clearing the tally is the most that the end of a run does to it.
pub clear_tally-part :
    (token : ℕ) (r : Removing) (w : World)
    → (removal_part (clear_tally token r w) ≡ removal_part w)
      ⊎ (removal_part (clear_tally token r w) ≡ record (removal_part w) { removing = none })
unfolding clear_tally toast
clear_tally-part token r w = ground arith

cleared-IsSound : (p : RemovalPart) → IsSound p → IsSound (record p { removing = none })
cleared-IsSound p s = record { runs_bound = s.runs_bound; sent_bound = s.sent_bound; fits = tt }

clear_tally-IsSound :
    (token : ℕ) (r : Removing) (w : World)
    → IsSound (removal_part w)
    → IsSound (removal_part (clear_tally token r w))
clear_tally-IsSound token r w s = elim (clear_tally-part token r w) [
  | inl same ↦ rw same s
  | inr cleared ↦ rw cleared (cleared-IsSound _ s)
]

finish_removal-IsSound :
    (token : ℕ) (w : World)
    → IsSound (removal_part w)
    → IsSound (removal_part (finish_removal token w))
unfolding finish_removal
finish_removal-IsSound token w s =
    let s' : IsSound (removal_part (refresh_now w)) = rw (refresh_now-removal_part w) s in
    elim (Option-cases (refresh_now w).snap.removing) [
      | inl gone ↦ rw (gone, finish_removal) s'
      | inr (r, shown) ↦ rw (shown, finish_removal) (clear_tally-IsSound token r (refresh_now w) s')
    ]

-- The store after a request, where the tally is this run's.
pub send_remove-part :
    (token id : ℕ) (rest : List ℕ) (w : World)
    → removal_part (send_remove token id rest w) ≡ record {
      removing = patch_tally token (λ r. record r { active = some id }) w.snap.removing;
      runs = w.runs ++ record { token = token; current = id; rest = rest } ∷ [];
      removal_token = w.removal_token;
      sent = (token, id) ∷ w.sent;
    }
unfolding send_remove
send_remove-part token id rest w = refl

send-Progress :
    (token id : ℕ) (rest : List ℕ) (r : Removing) (runs : List Run) (asked : List ℕ)
    → find_run token runs ≡ none
    → r.done + suc (length rest) ≡ length r.ids
    → asked ++ id ∷ rest ≡ r.ids
    → Progress
        (record r { active = some id })
        (find_run token (runs ++ record { token = token; current = id; rest = rest } ∷ []))
        (asked ++ id ∷ [])
send-Progress token id rest r runs asked absent n a =
    let run : Run = record { token = token; current = id; rest = rest } in
    let found : find_run token (runs ++ run ∷ []) ≡ some run =
      ground (arith, find_run-append token runs run, absent, ==_refl token) in
    rw found (n, refl, append_assoc asked (id ∷ []) rest ∙ a)

send-Fits :
    (token id : ℕ) (rest : List ℕ) (r : Removing) (p : RemovalPart)
    → r.token ≡ token
    → find_run token p.runs ≡ none
    → Between token (id ∷ rest) (some r) p
    → Fits (some (record r { active = some id })) (record p {
      runs = p.runs ++ record { token = token; current = id; rest = rest } ∷ [];
      sent = (token, id) ∷ p.sent;
    })
send-Fits token id rest r p same absent b =
    let own : (r.token == token) ≡ true = (==_iff r.token token).1 same in
    let (n, a) = rw own at (b.2) in
    let go = send-Progress token id rest r p.runs (requests token p.sent) absent n a in
    (
      b.0,
      record { answered = b.1.answered; failures = b.1.failures; distinct = b.1.distinct },
      subst
          (λ (k : ℕ).
            Progress (record r { active = some id })
              (find_run k (p.runs ++ record { token = token; current = id; rest = rest } ∷ []))
              (requests k ((token, id) ∷ p.sent)))
          (sym same) (rw (==_refl token) go),
    )

pub mine-some :
    (token : ℕ) (o : Option Removing) (r : Removing)
    → mine token o ≡ some r
    → (o ≡ some r) × (r.token ≡ token)
mine-some token none r h = cc
mine-some token (some s) r h = ground arith

send_remove-IsSound :
    (token id : ℕ) (rest : List ℕ) (r : Removing) (w : World)
    → mine token w.snap.removing ≡ some r
    → IsReady token (id ∷ rest) (removal_part w)
    → IsSound (removal_part (send_remove token id rest w))
send_remove-IsSound token id rest r w own h =
    let (shown, same) = mine-some token w.snap.removing r own in
    let eq : (r.token == token) ≡ true = (==_iff r.token token).1 same in
    rw (send_remove-part token id rest w) (record {
      runs_bound = All-append _ w.runs _ h.runs_bound (h.bound, tt);
      sent_bound = (h.bound, h.sent_bound);
      fits =
          rw (shown, eq)
            (send-Fits token id rest r (removal_part w) same h.absent (rw shown at (h.fits)));
    })

not_mine-IsOver :
    (token : ℕ) (rest : List ℕ) (o : Option Removing) → mine token o ≡ none → IsOver token rest o
not_mine-IsOver token rest none h = tt
not_mine-IsOver token rest (some r) h = λ e. absurd (ground (arith, (==_iff r.token token).1 e))

ended-IsOver : (token : ℕ) (o : Option Removing) → IsOver token [] o
ended-IsOver token none = tt
ended-IsOver token (some r) = λ e. inr refl

stopped-IsOver :
    (token : ℕ) (rest : List ℕ) (o : Option Removing) (r : Removing)
    → o ≡ some r
    → r.stopped ≡ true
    → IsOver token rest o
stopped-IsOver token rest o r shown stop = rw shown (λ e. inl stop)

-- From the head of the loop on, the invariant holds again.
pub next_removal-IsSound :
    (token : ℕ) (rest : List ℕ) (w : World)
    → IsReady token rest (removal_part w)
    → IsSound (removal_part (next_removal token rest w))
unfolding next_removal
next_removal-IsSound token [] w h =
    finish_removal-IsSound token w
      (over-IsSound token [] (removal_part w) h (ended-IsOver token w.snap.removing))
next_removal-IsSound token (id ∷ rest) w h = elim (Option-cases (mine token w.snap.removing)) [
  | inl lost ↦
      rw (lost, next_removal)
        (finish_removal-IsSound token w (
          over-IsSound token (id ∷ rest) (removal_part w) h
            (not_mine-IsOver token (id ∷ rest) w.snap.removing lost)))
  | inr (r, own) ↦ elim (Bool-cases r.stopped) [
    | inl stop ↦
        rw (own, next_removal, stop)
          (finish_removal-IsSound token w (
            over-IsSound token (id ∷ rest) (removal_part w) h (
              stopped-IsOver token (id ∷ rest) w.snap.removing r
                (mine-some token w.snap.removing r own).0 stop)))
    | inr go ↦ rw (own, next_removal, go) (send_remove-IsSound token id rest r w own h)
  ]
]
