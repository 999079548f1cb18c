-- ===== src/Store/Tests.antt =====
-- Runs of ui/src/state/store.ts at concrete inputs.
use transmission_ui.Prelude.{
  codes, get_elem?, text_eq, is_empty, ℕ, ◌≤◌, ◌≡◌, refl, ◌⊎◌, inl, inr, true, false, none, some,
  List, [], ◌∷◌, arith,
}
use transmission_ui.Prelude.Keyed.{nat_eq, text_eq_inst, contains, Nodup, lookup}
use transmission_ui.Prelude.Decimal.{read_from}
use transmission_ui.Store.{Removing, Snapshot, Pass, Run, World}
use transmission_ui.Store.Url.{Query, owned, sync_query, sync_url, view_of}
use transmission_ui.Store.Url.RoundTrip.{IsReopened, view_of-sync_query}
use transmission_ui.Store.Initial.{Stored, initial}
use transmission_ui.Store.Merge.{merged}
use transmission_ui.Store.Merge.Rows.{lookup-merged}
use transmission_ui.Store.Detail.{refresh_detail}
use transmission_ui.Store.Polling.{
  begin_pass, poll_once, settle, poll_caught, poll_fails, refresh_now,
}
use transmission_ui.Store.Polling.Chain.{IsChain, Reach-IsChain}
use transmission_ui.Store.Polling.Lively.{
  IsAlive, SignsOut, Step-IsAlive, IsOwed, PaysFull, Step-IsOwed,
}
use transmission_ui.Store.Actions.{toast, done, error, set_view_order}
use transmission_ui.Store.Removal.{
  shown_order, batch_of, deselect, finish_removal, send_remove, next_removal, start_removal,
  remove_sequence, drop_row, settle_reply, without, removal_replies, stop_removal, dismiss_removal,
}
use transmission_ui.Store.Removal.Tally.{requests, IsSound}
use transmission_ui.Store.Removal.Invariant.{IsTidy, Reach-IsSound}
use transmission_ui.Store.Removal.Stop.{stop_removal-final}
use transmission_ui.Store.Removal.Batch.{batch_of_lem}
use transmission_ui.Store.Steps.{
  resumed, find_run, Step, poll_rejects, refreshes, shows_list, removes, removal_answered, Reach,
  here, next,
}
use transmission_ui.Store.Frames.{removal_part}
use transmission_ui.Store.View.{Reach-IsShown}
use transmission_ui.Store.Kept.{IsShown}
use transmission_ui.Store.Removal.Late.{IsOther, removal_replies-late}
use transmission_ui.Store.Url.Query.{IsAdv, sync_query-others}
use transmission_ui.Store.Layout.{
  Finite, clamp_sidebar, initial_sidebar_w, displayed_sidebar_w, sidebar_min,
}
use transmission_ui.Store.Layout.Bounds.{
  IsWidth, IsInitial, initial_sidebar_w-IsWidth, displayed_sidebar_w-IsWidth,
}
use transmission_ui.Prelude.{◌≤◌, ◌*◌, ◌+◌, ◌<◌, max, ◌⊎◌, arith, ◌≡◌, some}
use transmission_ui.Prelude.Int.{pos}

store : Unit {0}
unfolding initial view_of read_from sync_query text_eq sync_url remove_sequence start_removal
    next_removal send_remove finish_removal removal_replies settle_reply drop_row without batch_of
    shown_order deselect refresh_now poll_once begin_pass refresh_detail toast stop_removal
    poll_fails poll_caught settle set_view_order
store = tt

abbrev stored : Stored
stored = record { dismissed = []; density = []; sidebar_w = none }

abbrev link : Query
link = (codes "filter", codes "seed") ∷ (codes "sel", codes "7") ∷ (codes "v", codes "1") ∷ []

abbrev first : World
first = initial link stored

abbrev listed : World
listed = set_view_order (3 ∷ 1 ∷ 2 ∷ []) first

abbrev removing_two : World
removing_two = remove_sequence (1 ∷ 3 ∷ []) listed

abbrev first_run : Run
first_run = record { token = 1; current = 3; rest = 1 ∷ [] }

one_waits : removing_two.runs ≡ first_run ∷ []
unfolding store
one_waits = refl

run_found : find_run 1 removing_two.runs ≡ some first_run
unfolding store
run_found = refl

abbrev one_failed : World
one_failed = removal_replies first_run (error (codes "no")) removing_two

one_failed_test :
    (one_failed.snap.removing
      ≡ some (record {
        token = 1;
        ids = 3 ∷ 1 ∷ [];
        done = 1;
        active = some 1;
        failed = record { id = 3; msg = codes "no" } ∷ [];
        stopped = false;
      }))
    × (one_failed.sent ≡ (1, 1) ∷ (1, 3) ∷ [])
unfolding store
one_failed_test = (refl, refl)

reached : Reach first one_failed
reached =
    next (next (next here (shows_list first (3 ∷ 1 ∷ 2 ∷ []))) (removes listed (1 ∷ 3 ∷ [])))
      (removal_answered removing_two first_run (error (codes "no")) run_found)

reached-IsTidy : IsTidy reached
unfolding store reached
reached-IsTidy = (((tt, tt), (refl, (refl, (refl, tt)))), tt)

Reach-IsSound_example : IsSound (removal_part one_failed)
Reach-IsSound_example = Reach-IsSound link stored one_failed reached reached-IsTidy

Reach-IsChain_example : IsChain one_failed.poll
Reach-IsChain_example = Reach-IsChain link stored one_failed reached

Reach-IsShown_example : IsShown one_failed.snap
Reach-IsShown_example = Reach-IsShown link stored one_failed reached

abbrev tally : Removing
tally = record {
  token = 1;
  ids = 3 ∷ 1 ∷ [];
  done = 0;
  active = some 3;
  failed = [];
  stopped = false;
}

tally_shown : removing_two.snap.removing ≡ some tally
unfolding store
tally_shown = refl

token_given : 1 ≤ removing_two.removal_token
unfolding store
token_given = omega arith

stopped_run_found : find_run 1 (stop_removal removing_two).runs ≡ some first_run
unfolding store
stopped_run_found = refl

-- The answer that comes after Stop.
stop_removal-final_example :
    requests 1 (removal_replies first_run done (stop_removal removing_two)).sent
    ≡ requests 1 removing_two.sent
stop_removal-final_example =
    stop_removal-final 1 removing_two (removal_replies first_run done (stop_removal removing_two))
      tally token_given tally_shown refl
      (next here (removal_answered (stop_removal removing_two) first_run done stopped_run_found))

dismissed-IsOther : IsOther 1 (dismiss_removal removing_two).snap.removing
unfolding dismiss_removal
dismissed-IsOther = tt

removal_replies-late_example :
    removal_part (removal_replies first_run done (dismiss_removal removing_two))
    ≡ record (removal_part (dismiss_removal removing_two)) {
      runs = without 1 (dismiss_removal removing_two).runs;
    }
removal_replies-late_example =
    removal_replies-late first_run done (dismiss_removal removing_two) dismissed-IsOther

batch_of_example :
    Nodup (batch_of (3 ∷ 1 ∷ 2 ∷ []) (1 ∷ 4 ∷ 3 ∷ []))
    × ((i : ℕ)
        → contains i (batch_of (3 ∷ 1 ∷ 2 ∷ []) (1 ∷ 4 ∷ 3 ∷ [])) ≡ contains i (1 ∷ 4 ∷ 3 ∷ []))
    × ((rest : List ℕ) × (batch_of (3 ∷ 1 ∷ 2 ∷ []) (1 ∷ 4 ∷ 3 ∷ []) ≡ 3 ∷ 1 ∷ rest))
batch_of_example = batch_of_lem (3 ∷ 1 ∷ 2 ∷ []) (1 ∷ 4 ∷ 3 ∷ []) (refl, (refl, (refl, tt)))

abbrev polling : World
polling = refresh_now first

abbrev pass_out : Pass
pass_out = record { forced = true; full = true; reads_session = true }

pass_waits : get_elem? polling.poll.passes 0 ≡ some pass_out
unfolding store
pass_waits = refl

polling-IsAlive : IsAlive polling.poll
unfolding store
polling-IsAlive = inl (refl, omega arith)

polling-IsOwed : IsOwed polling.poll
unfolding store
polling-IsOwed = inr refl

abbrev failing : Step polling (poll_fails pass_out (codes "HTTP 502") false (resumed 0 polling))
failing = poll_rejects polling 0 pass_out (codes "HTTP 502") false pass_waits

Step-IsAlive_example :
    IsAlive (poll_fails pass_out (codes "HTTP 502") false (resumed 0 polling)).poll
    ⊎ SignsOut failing
Step-IsAlive_example = Step-IsAlive failing polling-IsAlive

polling-IsChain : IsChain polling.poll
polling-IsChain = Reach-IsChain link stored polling (next here (refreshes first))

Step-IsOwed_example :
    IsOwed (poll_fails pass_out (codes "HTTP 502") false (resumed 0 polling)).poll
    ⊎ PaysFull failing
Step-IsOwed_example = Step-IsOwed failing polling-IsChain polling-IsOwed

abbrev seed_view : Snapshot
seed_view = record (first.snap) {
  filter = codes "seed";
  sort = codes "size";
  adv = (codes "ratio", codes "lt1") ∷ [];
  focus_id = some 7;
}

adv_ok : IsAdv seed_view.adv
adv_ok = ((refl, tt), λ k h. ground (arith, h))

not_nil_filter : is_empty seed_view.filter ≡ false
not_nil_filter = refl

view_of-sync_query_example : IsReopened seed_view (view_of (sync_query seed_view link))
view_of-sync_query_example = view_of-sync_query seed_view link adv_ok refl refl

other_key : contains (codes "v") owned ≡ false
unfolding text_eq
other_key = refl

sync_query-others_example : lookup (codes "v") (sync_query seed_view link) ≡ lookup (codes "v") link
sync_query-others_example = sync_query-others (codes "v") seed_view link adv_ok other_key

lookup-merged_example : lookup 5 (merged first.snap 0 [] (some (5 ∷ [])) false).by_id ≡ none
lookup-merged_example = lookup-merged 5 first.snap 0 [] (some (5 ∷ [])) false

-- 250.5
abbrev stored_width : Finite
stored_width = record { numerator = pos 501; halvings = 1 }

initial_sidebar_w-IsWidth_example :
    IsWidth (initial_sidebar_w (some stored_width))
    × IsInitial (some stored_width) (initial_sidebar_w (some stored_width))
initial_sidebar_w-IsWidth_example = initial_sidebar_w-IsWidth (some stored_width)

half_goes_up : initial_sidebar_w (some stored_width) ≡ 251
unfolding initial_sidebar_w clamp_sidebar
half_goes_up = refl

displayed_sidebar_w-IsWidth_example :
    IsWidth (displayed_sidebar_w 800 400)
    × (displayed_sidebar_w 800 400 ≤ 400)
    × (10 * displayed_sidebar_w 800 400 ≤ max (10 * sidebar_min) (4 * 800) + 5)
    × ((displayed_sidebar_w 800 400 ≡ 400) ⊎ (4 * 800 < 10 * 400))
displayed_sidebar_w-IsWidth_example =
    displayed_sidebar_w-IsWidth 800 400 (omega arith) (omega arith, omega arith)
