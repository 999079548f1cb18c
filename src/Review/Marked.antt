-- ===== src/Review/Marked.antt =====
-- A request to delete is for an entry that is marked Delete.
use transmission_ui.Prelude.{
  if◌then◌else◌, Bool-cases, Option-cases, is_some, keep, All, Text, text_eq, text_eq_iff, ◌≡◌,
  refl, sym, subst, ◌∙◌, ◌≢◌, ◌⊎◌, inl, inr, Bool, true, false, not, ◌||◌, Option, none, some, List,
  [], ◌∷◌, map, arith,
}
use transmission_ui.Prelude.Keyed.{nat_eq, text_eq_inst, contains, lookup, insert}
use transmission_ui.Prelude.Maps.{lookup-insert, contains-keys}
use transmission_ui.Orphans.{Orphan, OrphanScan}
use transmission_ui.Review.{
  Decision, del, keep_it, Phase, review, confirm, deleting, done, Outcome, queued, active, Review,
  opened, says_del, to_delete, focused, decide, is_queued, is_deleted, end_run, next_delete,
  all_queued, start_run, delete_replies, gone, dismiss,
}
use transmission_ui.Review.Steps.{
  Step, decides, moves, turns, asks, backs, runs, stops, answered, dismisses, closes, Reach, here,
  next,
}

abbrev pub Marked : List (Text × Decision) → Text → Type 0
Marked dec id = lookup id dec ≡ some del

abbrev is_reviewing : Phase → Bool
is_reviewing review = true
is_reviewing confirm = true
is_reviewing deleting = false
is_reviewing done = false

-- What a run waits for and will still try, with the phase that this takes.
abbrev pub Ahead : List (Text × Decision) → Phase → Option (Text × List Text) → Type 0
Ahead dec phase none = Unit {0}
Ahead dec phase (some (id, rest)) = (phase ≡ deleting) × All (Marked dec) (id ∷ rest)

-- While decisions can change nothing was tried, what was tried is marked, and so is what a run will
-- still try.
pub record IsMarked (r : Review) : Type 0 where
  pub quiet : is_reviewing r.phase ≡ true → r.outcome ≡ []
  pub tried : (id : Text) → is_some (lookup id r.outcome) ≡ true → Marked r.dec id
  pub ahead : Ahead r.dec r.phase r.waiting

lookup-keep_values :
    {V : Type 0} (q : V → Bool) (id : Text) (m : List (Text × V))
    → is_some (lookup id (keep (λ b. q (b.1)) m)) ≡ true
    → is_some (lookup id m) ≡ true
lookup-keep_values q id [] h = h
lookup-keep_values q id ((j, v) ∷ m) h = ground (arith, lookup-keep_values q id m)

pub lookup-gone :
    (id : Text) (m : List (Text × Outcome))
    → contains id (gone m) ≡ true
    → is_some (lookup id m) ≡ true
lookup-gone id m h =
    lookup-keep_values is_deleted id m (sym (contains-keys id (keep (λ b. is_deleted (b.1)) m)) ∙ h)

insert-tried :
    (dec : List (Text × Decision)) (j : Text) (x : Outcome) (m : List (Text × Outcome))
    → Marked dec j
    → ((id : Text) → is_some (lookup id m) ≡ true → Marked dec id)
    → (id : Text) → is_some (lookup id (insert j x m)) ≡ true
    → Marked dec id
insert-tried dec j x m own others id h = elim (Bool-cases (text_eq j id)) [
  | inl equal ↦ subst (Marked dec) ((text_eq_iff j id).0 equal) own
  | inr other ↦ others id (ground (arith, lookup-insert id j x m, other, h))
]

all_queued-tried :
    (dec : List (Text × Decision)) (ids : List Text) (m : List (Text × Outcome))
    → All (Marked dec) ids
    → ((id : Text) → is_some (lookup id m) ≡ true → Marked dec id)
    → (id : Text) → is_some (lookup id (all_queued ids m)) ≡ true
    → Marked dec id
all_queued-tried dec [] m h k = k
all_queued-tried dec (j ∷ ids) m (own, h) k =
    all_queued-tried dec ids (insert j queued m) h (insert-tried dec j queued m own k)

says_del_lem : (d : Option Decision) → says_del d ≡ true → d ≡ some del
says_del_lem none h = ground arith
says_del_lem (some del) h = refl
says_del_lem (some keep_it) h = ground arith

to_delete-Marked :
    (dec : List (Text × Decision)) (es : List Orphan)
    → All (Marked dec) (map (λ e. Orphan.id e) (keep (λ e. says_del (lookup (Orphan.id e) dec)) es))
to_delete-Marked dec [] = tt
to_delete-Marked dec (e ∷ es) = elim (Bool-cases (says_del (lookup e.id dec))) [
  | inl chosen ↦ rw chosen (says_del_lem _ chosen, to_delete-Marked dec es)
  | inr left ↦ rw left (to_delete-Marked dec es)
]

end_run-IsMarked :
    (r : Review)
    → r.phase ≡ deleting
    → ((id : Text) → is_some (lookup id r.outcome) ≡ true → Marked r.dec id)
    → IsMarked (end_run r)
unfolding end_run
end_run-IsMarked r phase tried = elim (Bool-cases r.alive) [
  | inl open_ ↦
      rw (open_, end_run)
        (record {
          quiet = λ q. ground arith;
          tried = λ id h. tried id (lookup-keep_values (λ x. not (is_queued x)) id r.outcome h);
          ahead = tt;
        })
  | inr closed ↦
      rw (closed, end_run)
        (record { quiet = λ q. ground (arith, phase); tried = tried; ahead = tt })
]

next_delete-IsMarked :
    (ids : List Text) (r : Review)
    → r.phase ≡ deleting
    → ((id : Text) → is_some (lookup id r.outcome) ≡ true → Marked r.dec id)
    → All (Marked r.dec) ids
    → IsMarked (next_delete ids r)
unfolding next_delete
next_delete-IsMarked [] r phase tried marked = end_run-IsMarked r phase tried
next_delete-IsMarked (j ∷ ids) r phase tried (own, marked) =
    elim (Bool-cases (r.stopped || not r.alive)) [
      | inl over ↦ rw (over, next_delete) (end_run-IsMarked r phase tried)
      | inr going ↦
          rw (going, next_delete)
            (record {
              quiet = λ q. ground (arith, phase);
              tried = insert-tried r.dec j active r.outcome own tried;
              ahead = (phase, (own, marked));
            })
    ]

-- Outside the deleting phase nothing is awaited.
Ahead-idle :
    (dec now : List (Text × Decision)) (p q : Phase) (o : Option (Text × List Text))
    → p ≢ deleting
    → Ahead dec p o
    → Ahead now q o
Ahead-idle dec now p q none other_phase h = tt
Ahead-idle dec now p q (some (id, rest)) other_phase (phase, marked) = absurd (other_phase phase)

-- Before anything was tried the decisions may change.
fresh-IsMarked :
    (r v : Review)
    → r.phase ≢ deleting
    → v.outcome ≡ []
    → v.waiting ≡ r.waiting
    → IsMarked r
    → IsMarked v
fresh-IsMarked r v phase none_tried same h = record {
  quiet = λ q. none_tried;
  tried = λ id e. ground (arith, none_tried, e);
  ahead =
      subst (Ahead v.dec v.phase) (sym same)
        (Ahead-idle r.dec v.dec r.phase v.phase r.waiting phase h.ahead);
}

decide-IsMarked :
    (d : Option Decision) (r : Review) → r.phase ≡ review → IsMarked r → IsMarked (decide d r)
unfolding decide
decide-IsMarked none r phase h = elim (Option-cases (focused r)) [
  | inl nobody ↦ rw (nobody, decide) h
  | inr (o, found) ↦
      rw (found, decide)
        (fresh-IsMarked r _ (ground (arith, phase)) (h.quiet (rw phase refl)) refl h)
]
decide-IsMarked (some x) r phase h = elim (Option-cases (focused r)) [
  | inl nobody ↦ rw (nobody, decide) h
  | inr (o, found) ↦
      rw (found, decide)
        (fresh-IsMarked r _ (ground (arith, phase)) (h.quiet (rw phase refl)) refl h)
]

pub either_way :
    (P : Review → Type 0) (b : Bool) (x y : Review) → P x → P y → P (if b then x else y)
either_way P true x y p q = p
either_way P false x y p q = q

Step-IsMarked : {r v : Review} → Step r v → IsMarked r → IsMarked v
unfolding start_run delete_replies dismiss
Step-IsMarked (decides d r phase open_) h = decide-IsMarked d r phase h
Step-IsMarked (moves cur r open_) h = record { quiet = h.quiet; tried = h.tried; ahead = h.ahead }
Step-IsMarked (turns tab r open_) h = record { quiet = h.quiet; tried = h.tried; ahead = h.ahead }
Step-IsMarked (asks r phase open_) h =
    fresh-IsMarked r (record r { phase = confirm }) (ground (arith, phase))
      (h.quiet (rw phase refl)) refl h
Step-IsMarked (backs r phase open_) h =
    fresh-IsMarked r (record r { phase = review }) (ground (arith, phase)) (h.quiet (rw phase refl))
      refl h
Step-IsMarked (runs r phase open_) h =
    next_delete-IsMarked _
      (record r {
        stopped = false;
        outcome = all_queued (map (λ e. Orphan.id e) (to_delete r)) [];
        phase = deleting;
      })
      refl
      (all_queued-tried r.dec (map (λ e. Orphan.id e) (to_delete r)) []
        (to_delete-Marked r.dec r.entries) (λ id k. ground arith))
      (to_delete-Marked r.dec r.entries)
Step-IsMarked (stops r phase) h = record { quiet = h.quiet; tried = h.tried; ahead = h.ahead }
Step-IsMarked (closes r) h = record { quiet = h.quiet; tried = h.tried; ahead = h.ahead }
Step-IsMarked (dismisses r phase open_) h =
    fresh-IsMarked r (dismiss r) (ground (arith, phase)) refl refl h
Step-IsMarked (answered r id rest x e a) h =
    let (phase, (own, marked)) = subst (Ahead r.dec r.phase) e h.ahead in
    let w : Review = record r { outcome = insert id x r.outcome; waiting = none } in
    either_way IsMarked r.alive (next_delete rest w) (record r { waiting = none })
      (next_delete-IsMarked rest w phase (insert-tried r.dec id x r.outcome own h.tried) marked)
      (record { quiet = h.quiet; tried = h.tried; ahead = tt })

pub Reach-IsMarked : (scan : OrphanScan) (r : Review) → Reach (opened scan) r → IsMarked r
Reach-IsMarked scan r here = record { quiet = λ q. refl; tried = λ id h. ground arith; ahead = tt }
Reach-IsMarked scan v (next st0 st) = Step-IsMarked st (Reach-IsMarked scan _ st0)

-- What one event asks to delete: nothing, or an entry that was marked Delete, while the run is not stopped
-- and the window is open.
abbrev pub AsksMarked : Review → Review → Type 0
AsksMarked r v =
    (v.sent ≡ r.sent)
    ⊎ ((id : Text) × (v.sent ≡ id ∷ r.sent)
        × Marked r.dec id
        × (v.stopped ≡ false)
        × (v.alive ≡ true))

next_delete-AsksMarked :
    (ids : List Text) (r : Review) → All (Marked r.dec) ids → AsksMarked r (next_delete ids r)
unfolding next_delete end_run
next_delete-AsksMarked [] r marked = inl (ground arith)
next_delete-AsksMarked (j ∷ ids) r (own, marked) = elim (Bool-cases (r.stopped || not r.alive)) [
  | inl over ↦ inl (ground (arith, over))
  | inr going ↦ rw (going, next_delete) (inr (j, refl, own, ground arith, ground arith))
]

decide-sent : (d : Option Decision) (r : Review) → (decide d r).sent ≡ r.sent
unfolding decide
decide-sent none r = ground arith
decide-sent (some x) r = ground arith

-- Everything marked Delete, and nothing else: from the opening of the window on, in any order of events,
-- an event asks to delete nothing, or the one entry whose decision at that moment is Delete, and that only
-- in a run that is not stopped and in a window that is open.
pub Step-AsksMarked :
    (scan : OrphanScan) (r v : Review) → Reach (opened scan) r → Step r v → AsksMarked r v
unfolding start_run delete_replies dismiss decide
Step-AsksMarked scan r v st0 (decides d _ phase open_) = inl (decide-sent d r)
Step-AsksMarked scan r v st0 (moves cur _ open_) = inl refl
Step-AsksMarked scan r v st0 (turns tab _ open_) = inl refl
Step-AsksMarked scan r v st0 (asks _ phase open_) = inl refl
Step-AsksMarked scan r v st0 (backs _ phase open_) = inl refl
Step-AsksMarked scan r v st0 (runs _ phase open_) =
    next_delete-AsksMarked _ _ (to_delete-Marked r.dec r.entries)
Step-AsksMarked scan r v st0 (stops _ phase) = inl refl
Step-AsksMarked scan r v st0 (closes _) = inl refl
Step-AsksMarked scan r v st0 (dismisses _ phase open_) = inl refl
Step-AsksMarked scan r v st0 (answered _ id rest x e a) =
    let h = Reach-IsMarked scan r st0 in
    let (phase, (own, marked)) = subst (Ahead r.dec r.phase) e h.ahead in
    let w : Review = record r { outcome = insert id x r.outcome; waiting = none } in
    either_way (AsksMarked r) r.alive (next_delete rest w) (record r { waiting = none })
      (next_delete-AsksMarked rest w marked) (inl refl)
