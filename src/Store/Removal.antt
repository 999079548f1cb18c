-- ===== src/Store/Removal.antt =====
-- The bulk removal of ui/src/state/store.ts. `removeSequence` is cut at its `await`: `remove_sequence`
-- runs up to the first request, `removal_replies` from an answer to the next request or the end.
pub mod Tally
pub mod Rounds
pub mod Answers
pub mod Invariant
pub mod Stop
pub mod Late
pub mod Batch
use transmission_ui.Prelude.{
  ℕ, ◌+◌, ltb, ◌==◌, Bool, true, false, not, ◌&&◌, ◌||◌, List, [], ◌∷◌, ◌++◌, Option, none, some,
  Text, codes, if◌then◌else◌, keep, map, length, is_id,
}
use transmission_ui.Prelude.Keyed.{nat_eq, contains, delete, add_all, erase, values}
use transmission_ui.Prelude.Decimal.{show}
use transmission_ui.Types.{TorrentSummary}
use transmission_ui.Store.{World, Removing, Run}
use transmission_ui.Store.Url.{sync_url}
use transmission_ui.Store.Polling.{refresh_now}
use transmission_ui.Store.Actions.{toast, Reply, done, error}

-- `!prev.stopped && prev.done < prev.ids.length`
abbrev pub is_running : Removing → Bool
is_running r = not r.stopped && ltb r.done (length r.ids)

abbrev is_nil {ℓ} : {A : Type ℓ} → List A → Bool
is_nil [] = true
is_nil (x ∷ xs) = false

-- The order in which the rows are shown: the published view, else the store's.
unfoldable pub shown_order : World → List ℕ
shown_order w =
    if is_nil w.view_order then map (λ t. TorrentSummary.id t) w.snap.torrents else w.view_order

-- The batch: what the list shows of the wanted ids, in its order, then the rest.
unfoldable pub batch_of : List ℕ → List ℕ → List ℕ
batch_of shown ids =
    let order = keep (λ i. contains i ids) shown in
    if length order == length ids then order else add_all [] (order ++ ids)

-- `for (const id of batch) sel.delete(id)`
unfoldable pub deselect : List ℕ → List ℕ → List ℕ
deselect [] sel = sel
deselect (i ∷ is) sel = deselect is (delete i sel)

-- The tally on screen, if it is this run's.
abbrev pub mine : ℕ → Option Removing → Option Removing
mine token none = none
mine token (some r) = if r.token == token then some r else none

-- `patch`: an update that is dropped if the store has moved on to another run.
abbrev pub patch_tally : ℕ → (Removing → Removing) → Option Removing → Option Removing
patch_tally token f none = none
patch_tally token f (some r) = if r.token == token then some (f r) else some r

patch : ℕ → (Removing → Removing) → World → World
patch token f w = record w {
  snap = record (w.snap) { removing = patch_tally token f w.snap.removing };
}

removed_text : ℕ → Text
removed_text n =
    codes "Removed "
    ++ (if n == 1 then codes "1 torrent" else show n ++ codes " torrents")
    ++ codes " and data"

-- The tail of `finishRemoval`: a clean run clears itself, one with failures stays.
unfoldable pub clear_tally : ℕ → Removing → World → World
unfolding removed_text
clear_tally token r w =
    if not (r.token == token) || not (is_nil r.failed)
    then w
    else let w1 = record w { snap = record (w.snap) { removing = none } } in
      if r.done == 0 then w1 else toast (removed_text r.done) w1

unfoldable pub finish_removal : ℕ → World → World
finish_removal token w =
    let w1 = refresh_now w in elim w1.snap.removing [ none ↦ w1 | some r ↦ clear_tally token r w1 ]

-- `api.remove([id])` is sent, and the run waits for its answer.
unfoldable pub send_remove : ℕ → ℕ → List ℕ → World → World
unfolding patch
send_remove token id rest w =
    let w1 = patch token (λ r. record r { active = some id }) w in
    record w1 {
      runs = w.runs ++ record { token = token; current = id; rest = rest } ∷ [];
      sent = (token, id) ∷ w.sent;
    }

-- The head of the loop.
unfoldable pub next_removal : ℕ → List ℕ → World → World
next_removal token [] w = finish_removal token w
next_removal token (id ∷ rest) w = elim (mine token w.snap.removing) [
  | none ↦ finish_removal token w
  | some r ↦ if r.stopped then finish_removal token w else send_remove token id rest w
]

-- The fresh tally of a run.
abbrev pub new_tally : ℕ → List ℕ → Removing
new_tally token batch = record {
  token = token;
  ids = batch;
  done = 0;
  active = none;
  failed = [];
  stopped = false;
}

unfoldable pub start_removal : List ℕ → World → World
start_removal batch w =
    let token = w.removal_token + 1 in
    next_removal token batch (record w {
      removal_token = token;
      snap = record (w.snap) {
        selected = deselect batch w.snap.selected;
        removing = some (new_tally token batch);
      };
    })

-- `prev && !prev.stopped && prev.done < prev.ids.length`
abbrev pub is_busy : Option Removing → Bool
is_busy none = false
is_busy (some r) = is_running r

unfoldable pub remove_sequence : List ℕ → World → World
remove_sequence ids w =
    if is_nil ids
    then w
    else if is_busy w.snap.removing
    then toast (codes "A removal is already running") w
    else start_removal (batch_of (shown_order w) ids) w

-- The row goes at once, and the inspector if it shows that torrent.
unfoldable pub drop_row : ℕ → World → World
drop_row id w =
    let m = erase id w.snap.by_id in
    let w1 = record w { snap = record (w.snap) { torrents = values m; by_id = m } } in
    if is_id w1.snap.focus_id id
    then sync_url (record w1 { snap = record (w1.snap) { focus_id = none; detail = none } })
    else w1

-- One answer is counted.
abbrev pub count_reply : ℕ → Reply → Removing → Removing
count_reply id done r = record r { done = r.done + 1; active = none }
count_reply id (error msg) r = record r {
  done = r.done + 1;
  active = none;
  failed = r.failed ++ record { id = id; msg = msg } ∷ [];
}

unfoldable pub settle_reply : ℕ → ℕ → Reply → World → World
unfolding patch
settle_reply token id done w = patch token (count_reply id done) (drop_row id w)
settle_reply token id (error msg) w = patch token (count_reply id (error msg)) w

-- The runs that wait, without this one.
unfoldable pub without : ℕ → List Run → List Run
without token [] = []
without token (r ∷ rs) = if r.token == token then without token rs else r ∷ without token rs

-- The answer to a run's request, and the loop's next round.
unfoldable pub removal_replies : Run → Reply → World → World
removal_replies run reply w =
    next_removal run.token run.rest
      (settle_reply run.token run.current reply (record w { runs = without run.token w.runs }))

abbrev pub stop_tally : Option Removing → Option Removing
stop_tally none = none
stop_tally (some r) = some (record r { stopped = true })

unfoldable pub stop_removal : World → World
stop_removal w = record w { snap = record (w.snap) { removing = stop_tally w.snap.removing } }

unfoldable pub dismiss_removal : World → World
dismiss_removal w = record w { snap = record (w.snap) { removing = none } }
