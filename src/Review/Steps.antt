-- ===== src/Review/Steps.antt =====
-- What may happen in the review window, with the conditions under which its keys and buttons are there.
use transmission_ui.Prelude.{Text, ◌≡◌, true, false, Option, some, List}
use transmission_ui.Review.{
  Decision, Tab, Outcome, deleted, failed, kept, Review, decide, start_run, delete_replies, dismiss,
}
use transmission_ui.Review.{review, confirm, deleting, done}

-- The answer that `run` makes of what `deleteOrphan` does.
pub data Answer : Outcome → Type 0 where
  resolves : Answer deleted
  rejects : (msg : Text) → Answer (failed msg)
  refuses : (msg : Text) → Answer (kept msg)

pub data Step : Review → Review → Type 0 where
  decides :
      (d : Option Decision) (r : Review) → r.phase ≡ review → r.alive ≡ true → Step r (decide d r)
  moves : (cur : Text) (r : Review) → r.alive ≡ true → Step r (record r { cur = cur })
  turns : (tab : Tab) (r : Review) → r.alive ≡ true → Step r (record r { tab = tab })
  asks : (r : Review) → r.phase ≡ review → r.alive ≡ true → Step r (record r { phase = confirm })
  backs : (r : Review) → r.phase ≡ confirm → r.alive ≡ true → Step r (record r { phase = review })
  runs : (r : Review) → r.phase ≡ confirm → r.alive ≡ true → Step r (start_run r)
  stops : (r : Review) → r.phase ≡ deleting → Step r (record r { stopped = true })
  answered :
      (r : Review) (id : Text) (rest : List Text) (x : Outcome)
      → r.waiting ≡ some (id, rest)
      → Answer x
      → Step r (delete_replies id rest x r)
  dismisses : (r : Review) → r.phase ≡ done → r.alive ≡ true → Step r (dismiss r)
  closes : (r : Review) → Step r (record r { alive = false })

-- A sequence of events, in any order that the conditions allow.
pub data Reach (s : Review) : Review → Type 0 where
  here : Reach s s
  next : {r v : Review} → Reach s r → Step r v → Reach s v
