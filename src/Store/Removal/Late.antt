-- ===== src/Store/Removal/Late.antt =====
-- An answer that comes after its run left the screen.
use transmission_ui.Prelude.{
  ℕ, ◌≡◌, refl, ap, ◌∙◌, inl, inr, false, List, [], ◌∷◌, Option, none, some, ◌==◌, Option-cases,
}
use transmission_ui.Store.{World, Removing, Run}
use transmission_ui.Store.Frames.{RemovalPart, removal_part, refresh_now-removal_part}
use transmission_ui.Store.Polling.{refresh_now}
use transmission_ui.Store.Actions.{Reply}
use transmission_ui.Store.Removal.{
  mine, patch_tally, count_reply, settle_reply, without, removal_replies, next_removal,
  finish_removal, clear_tally,
}
use transmission_ui.Store.Removal.Answers.{settle_reply-part}

-- The tally of another run.
abbrev pub IsOther : ℕ → Option Removing → Type 0
IsOther token none = Unit {0}
IsOther token (some r) = (r.token == token) ≡ false

other-patch :
    (token : ℕ) (f : Removing → Removing) (o : Option Removing)
    → IsOther token o
    → patch_tally token f o ≡ o
other-patch token f none h = refl
other-patch token f (some r) h = rw h

other-mine : (token : ℕ) (o : Option Removing) → IsOther token o → mine token o ≡ none
other-mine token none h = refl
other-mine token (some r) h = rw h

finish_removal-other :
    (token : ℕ) (w : World)
    → IsOther token w.snap.removing
    → removal_part (finish_removal token w) ≡ removal_part w
unfolding finish_removal clear_tally
finish_removal-other token w h =
    let part = refresh_now-removal_part w in
    let other : IsOther token (refresh_now w).snap.removing =
      rw (ap (λ (p : RemovalPart). p.removing) part) h in
    elim (Option-cases (refresh_now w).snap.removing) [
      | inl gone ↦ rw (gone, finish_removal) part
      | inr (r, shown) ↦
          let ne : (r.token == token) ≡ false = rw shown at other in
          rw (shown, finish_removal, ne, clear_tally) part
    ]

next_removal-other :
    (token : ℕ) (rest : List ℕ) (w : World)
    → IsOther token w.snap.removing
    → removal_part (next_removal token rest w) ≡ removal_part w
unfolding next_removal
next_removal-other token [] w h = finish_removal-other token w h
next_removal-other token (id ∷ rest) w h =
    rw (other-mine token w.snap.removing h, next_removal) (finish_removal-other token w h)

-- A late answer, of a run whose tally is not on screen any more, changes no tally and sends nothing:
-- its run ends.
pub removal_replies-late :
    (run : Run) (reply : Reply) (w : World)
    → IsOther run.token w.snap.removing
    → removal_part (removal_replies run reply w)
      ≡ record (removal_part w) { runs = without run.token w.runs }
unfolding removal_replies
removal_replies-late run reply w h =
    let w0 = record w { runs = without run.token w.runs } in
    let same : patch_tally run.token (count_reply run.current reply) w.snap.removing
        ≡ w.snap.removing =
      other-patch run.token (count_reply run.current reply) w.snap.removing h in
    let part : removal_part (settle_reply run.token run.current reply w0) ≡ removal_part w0 =
      settle_reply-part run.token run.current reply w0 ∙ rw same refl in
    next_removal-other run.token run.rest (settle_reply run.token run.current reply w0)
      (rw (ap (λ (p : RemovalPart). p.removing) part) h)
    ∙ part
