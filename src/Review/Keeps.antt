-- ===== src/Review/Keeps.antt =====
-- The Keep requests tell the server what the window shows.
use transmission_ui.Prelude.{
  if◌then◌else◌, Bool-cases, Option-cases, keep, Text, text_eq, text_eq_iff, ◌≡◌, refl, subst, inl,
  inr, Bool, false, not, Option, none, some, List, [], ◌∷◌, ◌++◌, map, arith,
}
use transmission_ui.Prelude.Keyed.{
  nat_eq, text_eq_inst, contains, add, delete, lookup, insert, erase,
}
use transmission_ui.Prelude.Sets.{contains-add, contains-delete}
use transmission_ui.Prelude.Maps.{lookup-insert, lookup-erase}
use transmission_ui.Orphans.{Orphan, OrphanScan}
use transmission_ui.Review.{
  Decision, deleting, Call, remember, forget, Review, opened, says_keep, to_delete, focused,
  keep_calls, decide, end_run, next_delete, all_queued, start_run, delete_replies, gone, dismiss,
}
use transmission_ui.Review.Steps.{
  Step, decides, moves, turns, asks, backs, runs, stops, answered, dismisses, closes, Reach, here,
  next,
}
use transmission_ui.Review.Marked.{Marked, IsMarked, lookup-gone, either_way, Reach-IsMarked}

-- What the requests leave remembered, one after the other.
abbrev pub replay : List Text → List Call → List Text
replay ids [] = ids
replay ids (remember id ∷ calls) = replay (add id ids) calls
replay ids (forget id ∷ calls) = replay (delete id ids) calls

replay-append :
    (ids : List Text) (xs ys : List Call) → replay ids (xs ++ ys) ≡ replay (replay ids xs) ys
replay-append ids [] ys = refl
replay-append ids (remember id ∷ xs) ys = replay-append (add id ids) xs ys
replay-append ids (forget id ∷ xs) ys = replay-append (delete id ids) xs ys

-- The requests of one decision.
replay-keep_calls :
    (ids : List Text) (id i : Text) (was now : Option Decision)
    → contains id ids ≡ says_keep was
    → contains i (replay ids (keep_calls id was now))
      ≡ (if text_eq id i then says_keep now else contains i ids)
replay-keep_calls ids id i was now h =
    let added = contains-add i id ids in
    let taken = contains-delete i id ids in
    elim (Bool-cases (text_eq id i)) [
      | inl equal ↦
          let e : id ≡ i = (text_eq_iff id i).0 equal in
          let known : contains i ids ≡ says_keep was =
            subst (λ j. contains j ids ≡ says_keep was) e h in
          ground (arith, added, taken, known)
      | inr other ↦ ground (arith, added, taken)
    ]

-- What is remembered is what is marked Keep.
abbrev Agrees : List Call → List (Text × Decision) → Type 0
Agrees calls dec = (id : Text) → contains id (replay [] calls) ≡ says_keep (lookup id dec)

abbrev pub IsRemembered : Review → Type 0
IsRemembered r = Agrees r.keeps r.dec

lookup-keep_keys :
    (p : Text → Bool) (id : Text) (m : List (Text × Decision))
    → lookup id (keep (λ b. p (b.0)) m) ≡ (if p id then lookup id m else none)
lookup-keep_keys p id [] = ground arith
lookup-keep_keys p id ((j, x) ∷ m) = elim (Bool-cases (text_eq j id)) [
  | inl equal ↦
      let e : j ≡ id = (text_eq_iff j id).0 equal in ground (arith, e, lookup-keep_keys p id m)
  | inr other ↦ ground (arith, lookup-keep_keys p id m)
]

-- The requests of a decision keep the two in step.
decided-Agrees :
    (calls : List Call) (dec later : List (Text × Decision)) (id : Text) (now : Option Decision)
    → ((i : Text) → lookup i later ≡ (if text_eq id i then now else lookup i dec))
    → Agrees calls dec
    → Agrees (calls ++ keep_calls id (lookup id dec) now) later
decided-Agrees calls dec later id now change h i =
    rw (replay-append [] calls (keep_calls id (lookup id dec) now)) (
      ground
        (arith, replay-keep_calls (replay [] calls) id i (lookup id dec) now (h id), change i, h i))

decide-IsRemembered :
    (d : Option Decision) (r : Review) → IsRemembered r → IsRemembered (decide d r)
unfolding decide
decide-IsRemembered none r h = elim (Option-cases (focused r)) [
  | inl nobody ↦ rw (nobody, decide) h
  | inr (o, found) ↦
      rw (found, decide)
        (decided-Agrees r.keeps r.dec (erase o.id r.dec) o.id none (λ i. lookup-erase i o.id r.dec)
          h)
]
decide-IsRemembered (some x) r h = elim (Option-cases (focused r)) [
  | inl nobody ↦ rw (nobody, decide) h
  | inr (o, found) ↦
      rw (found, decide)
        (decided-Agrees r.keeps r.dec (insert o.id x r.dec) o.id (some x)
          (λ i. lookup-insert i o.id x r.dec) h)
]

dismiss-IsRemembered : (r : Review) → IsMarked r → IsRemembered r → IsRemembered (dismiss r)
unfolding dismiss
dismiss-IsRemembered r m h id =
    let left = lookup-keep_keys (λ i. not (contains i (gone r.outcome))) id r.dec in
    elim (Bool-cases (contains id (gone r.outcome))) [
      | inl deleted_ ↦
          let marked : Marked r.dec id = m.tried id (lookup-gone id r.outcome deleted_) in
          ground (arith, h id, left, marked)
      | inr stays ↦ ground (arith, h id, left)
    ]

-- A run touches neither decisions nor Keep requests.
abbrev Keeps : Review → Review → Type 0
Keeps r v = (v.keeps ≡ r.keeps) × (v.dec ≡ r.dec)

next_delete-Keeps : (ids : List Text) (r : Review) → Keeps r (next_delete ids r)
unfolding next_delete end_run
next_delete-Keeps [] r = ground arith
next_delete-Keeps (j ∷ ids) r = ground arith

same-IsRemembered : (r v : Review) → Keeps r v → IsRemembered r → IsRemembered v
same-IsRemembered r v (calls, dec) h id = rw (calls, dec) (h id)

Step-IsRemembered : {r v : Review} → Step r v → IsMarked r → IsRemembered r → IsRemembered v
unfolding start_run delete_replies
Step-IsRemembered (decides d r phase open_) m h = decide-IsRemembered d r h
Step-IsRemembered (moves cur r open_) m h = h
Step-IsRemembered (turns tab r open_) m h = h
Step-IsRemembered (asks r phase open_) m h = h
Step-IsRemembered (backs r phase open_) m h = h
Step-IsRemembered (runs r phase open_) m h =
    same-IsRemembered r (start_run r)
      (next_delete-Keeps (map (λ e. Orphan.id e) (to_delete r)) (record r {
        stopped = false;
        outcome = all_queued (map (λ e. Orphan.id e) (to_delete r)) [];
        phase = deleting;
      }))
      h
Step-IsRemembered (stops r phase) m h = h
Step-IsRemembered (closes r) m h = h
Step-IsRemembered (dismisses r phase open_) m h = dismiss-IsRemembered r m h
Step-IsRemembered (answered r id rest x e a) m h =
    let w : Review = record r { outcome = insert id x r.outcome; waiting = none } in
    either_way IsRemembered r.alive (next_delete rest w) (record r { waiting = none })
      (same-IsRemembered r (next_delete rest w) (next_delete-Keeps rest w) h) h

-- In every state of the window the Keep and the Undo requests issued so far, carried out in their order,
-- leave remembered exactly the entries that are marked Keep.
pub Reach-IsRemembered : (scan : OrphanScan) (r : Review) → Reach (opened scan) r → IsRemembered r
Reach-IsRemembered scan _ here = λ id. refl
Reach-IsRemembered scan _ (next st0 st) =
    Step-IsRemembered st (Reach-IsMarked scan _ st0) (Reach-IsRemembered scan _ st0)
