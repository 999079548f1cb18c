-- ===== src/Review.antt =====
-- ui/src/dialogs/OrphanReview.tsx: the state of the review window and what its keys and buttons do.
-- `run` is cut at its `await`: `start_run` goes up to the first request, `delete_replies` from an answer
-- to the next request or the end. Every event sees the state that the last one left.
pub mod Steps
pub mod Marked
pub mod Keeps
mod Tests
use transmission_ui.Prelude.{
  if◌then◌else◌, is_some, get_elem?, keep, find, Text, text_eq, ℕ, Bool, true, false, not, ◌||◌,
  Option, none, some, List, [], ◌∷◌, ◌++◌, map, arith,
}
use transmission_ui.Prelude.Keyed.{nat_eq, text_eq_inst, contains, lookup, insert, erase, keys}
use transmission_ui.Orphans.{OrphanChild, OrphanKind, file, dir, symlink, state, Orphan, OrphanScan}

pub data Decision : Type 0 where
  del keep_it : Decision

pub data Tab : Type 0 where
  all_entries undecided : Tab
  decided : Decision → Tab

pub data Phase : Type 0 where
  review confirm deleting done : Phase

pub data Outcome : Type 0 where
  queued active deleted : Outcome
  failed kept : Text → Outcome

-- A request of the chain `keeps`.
pub data Call : Type 0 where
  remember forget : Text → Call

pub record Review : Type 0 where
  pub entries : List Orphan
  pub dec : List (Text × Decision)
  pub cur : Text
  pub tab : Tab
  pub phase : Phase
  pub outcome : List (Text × Outcome)
  pub stopped : Bool
  pub alive : Bool
  -- The Keep requests issued so far, in order.
  pub keeps : List Call
  -- What `run` waits for, the id and those to come, and the deletions asked for, the last one first.
  pub waiting : Option (Text × List Text)
  pub sent : List Text

-- The window as it opens on a scan.
abbrev pub opened : OrphanScan → Review
opened scan = record {
  entries = OrphanScan.entries scan;
  dec = [];
  cur = elim (OrphanScan.entries scan) [ [] ↦ [] | e ∷ es ↦ Orphan.id e ];
  tab = all_entries;
  phase = review;
  outcome = [];
  stopped = false;
  alive = true;
  keeps = [];
  waiting = none;
  sent = [];
}

-- `dec[id] === "del"`, `dec[id] === "keep"`
abbrev pub says_del : Option Decision → Bool
says_del (some del) = true
says_del (some keep_it) = false
says_del none = false

abbrev pub says_keep : Option Decision → Bool
says_keep (some keep_it) = true
says_keep (some del) = false
says_keep none = false

abbrev pub to_delete : Review → List Orphan
to_delete r = keep (λ e. says_del (lookup (Orphan.id e) r.dec)) r.entries

-- Whether a tab shows an entry with this decision.
abbrev pub shown_on : Tab → Option Decision → Bool
shown_on all_entries d = true
shown_on undecided d = not (is_some d)
shown_on (decided del) d = says_del d
shown_on (decided keep_it) d = says_keep d

abbrev pub visible : Review → List Orphan
visible r = keep (λ e. shown_on r.tab (lookup (Orphan.id e) r.dec)) r.entries

-- `byId.get(cur) ?? visible[0]`; of two entries with an id the map holds the last.
abbrev pub last_with : Text → List Orphan → Option Orphan
last_with id [] = none
last_with id (e ∷ es) = elim (last_with id es) [
  | some found ↦ some found
  | none ↦ if text_eq e.id id then some e else none
]

unfoldable pub focused : Review → Option Orphan
focused r = elim (last_with r.cur r.entries) [ some e ↦ some e | none ↦ get_elem? (visible r) 0 ]

-- `entries[(i + k) % n]` for k from 1 to n, where i is the place of the entry.
abbrev pub round_from : Text → List Orphan → List Orphan → List Orphan
round_from id before_ [] = before_
round_from id before_ (e ∷ es) =
    if text_eq e.id id then es ++ before_ ++ e ∷ [] else round_from id (before_ ++ e ∷ []) es

-- The next undecided entry, if there is one.
abbrev pub next_open : Text → List (Text × Decision) → List Orphan → Text → Text
next_open id dec entries cur =
    elim (find (λ e. not (is_some (lookup (Orphan.id e) dec))) (round_from id [] entries)) [
      | none ↦ cur
      | some e ↦ Orphan.id e
    ]

-- The requests that a decision sends, given the one before.
abbrev pub keep_calls : Text → Option Decision → Option Decision → List Call
keep_calls id was now =
    if says_keep now
    then (if says_keep was then [] else remember id ∷ [])
    else if says_keep was
    then forget id ∷ []
    else []

-- `decide`, with `none` for Undo.
unfoldable pub decide : Option Decision → Review → Review
unfolding focused
decide d r = elim (focused r) [
  | none ↦ r
  | some o ↦
      let id = Orphan.id o in
      let calls = r.keeps ++ keep_calls id (lookup id r.dec) d in
      elim d [
        | none ↦ record r { dec = erase id r.dec; keeps = calls }
        | some x ↦
            let next = insert id x r.dec in
            record r { dec = next; cur = next_open id next r.entries r.cur; keeps = calls }
      ]
]

abbrev pub is_queued : Outcome → Bool
is_queued queued = true
is_queued _ = false

abbrev pub is_deleted : Outcome → Bool
is_deleted deleted = true
is_deleted _ = false

-- The end of `run`: what was not attempted goes back to a plain Delete decision.
unfoldable pub end_run : Review → Review
end_run r =
    if r.alive
    then record r {
      outcome = keep (λ b. not (is_queued (b.1))) r.outcome;
      phase = done;
      waiting = none;
    }
    else record r { waiting = none }

-- The head of the loop of `run`.
unfoldable pub next_delete : List Text → Review → Review
unfolding end_run
next_delete [] r = end_run r
next_delete (id ∷ rest) r = if r.stopped || not r.alive then end_run r else record r {
  outcome = insert id active r.outcome;
  waiting = some (id, rest);
  sent = id ∷ r.sent;
}

-- Every id is queued.
abbrev pub all_queued : List Text → List (Text × Outcome) → List (Text × Outcome)
all_queued [] m = m
all_queued (id ∷ ids) m = all_queued ids (insert id queued m)

unfoldable pub start_run : Review → Review
unfolding next_delete
start_run r =
    let ids = map (λ e. Orphan.id e) (to_delete r) in
    next_delete ids (record r { stopped = false; outcome = all_queued ids []; phase = deleting })

-- An answer to the request for an id, with what is still to come.
unfoldable pub delete_replies : Text → List Text → Outcome → Review → Review
unfolding next_delete
delete_replies id rest x r =
    if r.alive
    then next_delete rest (record r { outcome = insert id x r.outcome; waiting = none })
    else record r { waiting = none }

abbrev pub gone : List (Text × Outcome) → List Text
gone m = keys (keep (λ b. is_deleted (b.1)) m)

unfoldable pub dismiss : Review → Review
dismiss r = record r {
  entries = keep (λ e. not (contains (Orphan.id e) (gone r.outcome))) r.entries;
  dec = keep (λ b. not (contains (b.0) (gone r.outcome))) r.dec;
  outcome = [];
  phase = review;
}
