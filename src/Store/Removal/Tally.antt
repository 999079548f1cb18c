-- ===== src/Store/Removal/Tally.antt =====
-- The tally of a bulk removal agrees with its run: what was asked for, what was answered, what is
-- left. The invariant, and that the loop of `removeSequence` keeps it.
use transmission_ui.Prelude.{
  ℕ, suc, ◌+◌, ◌≤◌, ◌≡◌, refl, ◌⊎◌, inl, inr, true, if◌then◌else◌, List, [], ◌∷◌, ◌++◌, Option,
  none, some, arith, ◌==◌, Bool-cases, All, length,
}
use transmission_ui.Prelude.Keyed.{nat_eq, Nodup}
use transmission_ui.Store.{Removing, Run}
use transmission_ui.Store.Steps.{find_run}
use transmission_ui.Store.Frames.{RemovalPart}
use transmission_ui.Store.Removal.{without}

-- The ids that a run has asked the daemon to remove, oldest first.
abbrev pub requests : ℕ → List (ℕ × ℕ) → List ℕ
requests token [] = []
requests token ((t, i) ∷ s) = if t == token then requests token s ++ i ∷ [] else requests token s

-- The tally against the run that waits (if one does) and what was asked. With no request out every request has
-- its answer counted, and none is left unless the run was stopped.
abbrev pub Progress : Removing → Option Run → List ℕ → Type 0
Progress r none asked =
    (r.done ≡ length asked)
    × ((rest : List ℕ) × (asked ++ rest ≡ r.ids) × ((r.stopped ≡ true) ⊎ (rest ≡ [])))
Progress r (some run) asked =
    (r.done + suc (length run.rest) ≡ length r.ids)
    × (r.active ≡ some run.current)
    × (asked ++ run.rest ≡ r.ids)

pub record IsCounted (r : Removing) : Type 0 where
  pub answered : r.done ≤ length r.ids
  pub failures : length r.failed ≤ r.done
  pub distinct : Nodup r.ids

abbrev pub Fits : Option Removing → RemovalPart → Type 0
Fits none p = Unit {0}
Fits (some r) p =
    (r.token ≤ p.removal_token)
    × IsCounted r
    × Progress r (find_run r.token p.runs) (requests r.token p.sent)

pub record IsSound (p : RemovalPart) : Type 0 where
  pub runs_bound : All (λ run. Run.token run ≤ p.removal_token) p.runs
  pub sent_bound : All (λ s. s.0 ≤ p.removal_token) p.sent
  pub fits : Fits p.removing p

-- At the head of the loop: no request of the run is out, and `rest` is left.
abbrev pub Between : ℕ → List ℕ → Option Removing → RemovalPart → Type 0
Between token rest none p = Unit {0}
Between token rest (some r) p =
    (r.token ≤ p.removal_token)
    × IsCounted r
    × (if r.token == token
        then (r.done + length rest ≡ length r.ids) × (requests token p.sent ++ rest ≡ r.ids)
        else Progress r (find_run r.token p.runs) (requests r.token p.sent))

pub record IsReady (token : ℕ) (rest : List ℕ) (p : RemovalPart) : Type 0 where
  pub bound : token ≤ p.removal_token
  pub absent : find_run token p.runs ≡ none
  pub runs_bound : All (λ run. Run.token run ≤ p.removal_token) p.runs
  pub sent_bound : All (λ s. s.0 ≤ p.removal_token) p.sent
  pub fits : Between token rest p.removing p

pub find_run-append :
    (k : ℕ) (rs : List Run) (run : Run)
    → find_run k (rs ++ run ∷ []) ≡ (elim (find_run k rs) [
      | none ↦ if run.token == k then some run else none
      | some r ↦ some r
    ])
find_run-append k [] run = ground arith
find_run-append k (r ∷ rs) run = ground (arith, find_run-append k rs run)

pub find_run-without :
    (k j : ℕ) (rs : List Run) → find_run k (without j rs) ≡ (if j == k then none else find_run k rs)
unfolding without
find_run-without k j [] = ground arith
find_run-without k j (r ∷ rs) = ground (arith, find_run-without k j rs)

pub without-All :
    (n j : ℕ) (rs : List Run)
    → All (λ run. Run.token run ≤ n) rs
    → All (λ run. Run.token run ≤ n) (without j rs)
unfolding without
without-All n j [] h = tt
without-All n j (r ∷ rs) h = elim (Bool-cases (r.token == j)) [
  | inl gone ↦ rw gone (without-All n j rs h.1)
  | inr kept ↦ rw kept (h.0, without-All n j rs h.1)
]

pub requests-nil :
    (k n : ℕ) (s : List (ℕ × ℕ)) → All (λ x. x.0 ≤ n) s → suc n ≤ k → requests k s ≡ []
requests-nil k n [] h lt = refl
requests-nil k n ((t, i) ∷ s) h lt = ground (arith, requests-nil k n s h.1 lt)

pub find_run-none :
    (k n : ℕ) (rs : List Run) → All (λ r. Run.token r ≤ n) rs → suc n ≤ k → find_run k rs ≡ none
find_run-none k n [] h lt = refl
find_run-none k n (r ∷ rs) h lt = ground (arith, find_run-none k n rs h.1 lt)
