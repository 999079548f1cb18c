-- ===== src/Store/Removal/Answers.antt =====
-- An answer keeps the removal's invariant.
use transmission_ui.Prelude.{
  ℕ, suc, ◌+◌, ◌≤◌, ◌≡◌, refl, sym, subst, ◌∙◌, inl, inr, Bool, true, false, if◌then◌else◌, List,
  [], ◌∷◌, Option, none, some, arith, ◌==◌, ==_iff, ==_refl, Bool-cases, All, length, length-append,
}
use transmission_ui.Store.{World, Removing, Run}
use transmission_ui.Store.Url.{sync_url}
use transmission_ui.Store.Steps.{find_run}
use transmission_ui.Store.Frames.{RemovalPart, removal_part}
use transmission_ui.Store.Actions.{Reply, done, error}
use transmission_ui.Store.Removal.{
  patch_tally, count_reply, settle_reply, drop_row, without, removal_replies,
}
use transmission_ui.Store.Removal.Tally.{
  requests, Progress, Fits, IsCounted, IsSound, Between, find_run-without, without-All,
}
use transmission_ui.Store.Removal.Rounds.{next_removal-IsSound}

drop_row-part : (id : ℕ) (w : World) → removal_part (drop_row id w) ≡ removal_part w
unfolding drop_row sync_url
drop_row-part id w = ground arith

pub settle_reply-part :
    (token id : ℕ) (reply : Reply) (w : World)
    → removal_part (settle_reply token id reply w) ≡ record (removal_part w) {
      removing = patch_tally token (count_reply id reply) w.snap.removing;
    }
unfolding settle_reply
settle_reply-part token id done w = ground (arith, drop_row-part id w)
settle_reply-part token id (error msg) w = refl

count_reply-IsCounted :
    (id : ℕ) (reply : Reply) (r : Removing) (n : ℕ)
    → IsCounted r
    → r.done + suc n ≡ length r.ids
    → IsCounted (count_reply id reply r)
count_reply-IsCounted id done r n c e = record {
  answered = omega arith;
  failures = omega (arith, c.failures);
  distinct = c.distinct;
}
count_reply-IsCounted id (error msg) r n c e = record {
  answered = omega arith;
  failures = omega (arith, length-append r.failed (record { id = id; msg = msg } ∷ []), c.failures);
  distinct = c.distinct;
}

-- The run that waits for the tally's token is the one that answers.
own-Progress :
    (run : Run) (r : Removing) (p : RemovalPart)
    → find_run run.token p.runs ≡ some run
    → r.token ≡ run.token
    → Fits (some r) p
    → Progress r (some run) (requests run.token p.sent)
own-Progress run r p found same f =
    let g : Progress r (find_run run.token p.runs) (requests run.token p.sent) =
      subst (λ (k : ℕ). Progress r (find_run k p.runs) (requests k p.sent)) same (f.2) in
    rw found at g

counted-Between :
    (run : Run) (reply : Reply) (r : Removing) (p : RemovalPart)
    → find_run run.token p.runs ≡ some run
    → (r.token == run.token) ≡ true
    → Fits (some r) p
    → Between run.token run.rest
        (some (count_reply run.current reply r))
        (record p { runs = without run.token p.runs })
counted-Between run done r p found same f =
    let (n, a, e) = own-Progress run r p found ((==_iff _ _).0 same) f in
    (
      f.0,
      count_reply-IsCounted run.current done r (length run.rest) f.1 n,
      rw same (omega (arith, n), e),
    )
counted-Between run (error msg) r p found same f =
    let (n, a, e) = own-Progress run r p found ((==_iff _ _).0 same) f in
    (
      f.0,
      count_reply-IsCounted run.current (error msg) r (length run.rest) f.1 n,
      rw same (omega (arith, n), e),
    )

other-Between :
    (run : Run) (r : Removing) (p : RemovalPart)
    → (r.token == run.token) ≡ false
    → Fits (some r) p
    → Between run.token run.rest (some r) (record p { runs = without run.token p.runs })
other-Between run r p other f =
    let kept : find_run r.token (without run.token p.runs) ≡ find_run r.token p.runs =
      ground (arith, find_run-without r.token run.token p.runs) in
    (f.0, f.1, rw (other, kept) (f.2))

answered-Between :
    (run : Run) (reply : Reply) (o : Option Removing) (p : RemovalPart) (x : Option Removing)
    → find_run run.token p.runs ≡ some run
    → Fits o p
    → Between run.token run.rest
        (patch_tally run.token (count_reply run.current reply) o)
        (record p { removing = x; runs = without run.token p.runs })
answered-Between run reply none p x found f = tt
answered-Between run reply (some r) p x found f = elim (Bool-cases (r.token == run.token)) [
  | inl same ↦
      subst
        (λ (b : Bool).
          Between run.token run.rest (if b then some (count_reply run.current reply r) else some r)
            (record p { removing = x; runs = without run.token p.runs }))
        (sym same) (counted-Between run reply r p found same f)
  | inr other ↦
      subst
        (λ (b : Bool).
          Between run.token run.rest (if b then some (count_reply run.current reply r) else some r)
            (record p { removing = x; runs = without run.token p.runs }))
        (sym other) (other-Between run r p other f)
]

found-bound :
    (k n : ℕ) (rs : List Run) (run : Run)
    → All (λ r. Run.token r ≤ n) rs
    → find_run k rs ≡ some run
    → run.token ≤ n
found-bound k n [] run h e = cc
found-bound k n (r ∷ rs) run h e = ground (arith, found-bound k n rs run h.1)

pub removal_replies-IsSound :
    (run : Run) (reply : Reply) (w : World)
    → find_run run.token w.runs ≡ some run
    → IsSound (removal_part w)
    → IsSound (removal_part (removal_replies run reply w))
unfolding removal_replies
removal_replies-IsSound run reply w found s = next_removal-IsSound run.token run.rest _ (
    rw
      (settle_reply-part run.token run.current reply (record w { runs = without run.token w.runs }))
      (record {
        bound = found-bound run.token w.removal_token w.runs run s.runs_bound found;
        absent = find_run-without run.token run.token w.runs ∙ ground (arith, ==_refl run.token);
        runs_bound = without-All w.removal_token run.token w.runs s.runs_bound;
        sent_bound = s.sent_bound;
        fits =
            answered-Between run reply w.snap.removing (removal_part w)
              (patch_tally run.token (count_reply run.current reply) w.snap.removing) found s.fits;
      }))
