-- ===== src/Store/Polling.antt =====
-- The poll chain of ui/src/state/store.ts. `pollOnce` is cut at its `await`: `poll_once` runs up to
-- it, `poll_succeeds` and `poll_fails` from there to the end.
pub mod Effects
pub mod Chain
pub mod Lively
use transmission_ui.Prelude.{
  ℕ, ◌+◌, ◌%◌, ◌/◌, ◌==◌, Bool, true, false, not, ◌&&◌, ◌||◌, List, [], ◌∷◌, ◌++◌, Option, none,
  some, Text, codes, text_eq, if◌then◌else◌, take_last, keep, map, is_some,
}
use transmission_ui.Prelude.Keyed.{nat_eq, text_eq_inst, lookup, insert, add, add_all}
use transmission_ui.Types.{TorrentSummary, Session, SessionStats, FreeSpace}
use transmission_ui.Paths.{mount_of}
use transmission_ui.Store.{
  Snapshot, World, Poll, Timer, Pass, SpaceRequest, connected, unauthorized, failed,
}
use transmission_ui.Store.Url.{sync_url}
use transmission_ui.Store.Merge.{merged}
use transmission_ui.Store.Detail.{refresh_detail}

abbrev pub list_ms : ℕ
list_ms = 2000

abbrev pub hidden_ms : ℕ
hidden_ms = 5000

abbrev pub full_every : ℕ
full_every = 30

abbrev pub session_every : ℕ
session_every = 15

abbrev pub space_ms : ℕ
space_ms = 30000

-- `if (timer) { clearTimeout(timer); timer = null; }`
abbrev pub cancelled : Option ℕ → List Timer → List Timer
cancelled none ts = ts
cancelled (some h) ts = keep (λ t. not (Timer.handle t == h)) ts

unfoldable pub begin_pass : Poll → Poll
begin_pass p =
    let full = p.force_full || ((p.ticks % full_every) == 0) in
    let reads = not p.session_fresh && (p.force_full || ((p.ticks % session_every) == 0)) in
    record p {
      in_flight = true;
      timer = none;
      armed = cancelled p.timer p.armed;
      force_full = false;
      passes =
          p.passes ++ record { forced = p.force_full; full = full; reads_session = reads } ∷ [];
    }

-- `Promise.all([...])` sends the requests; of these the inspector's depends on the store.
unfoldable pub poll_once : World → World
unfolding begin_pass
poll_once w =
    if w.poll.in_flight
    then record w { poll = record (w.poll) { poll_again = true } }
    else refresh_detail (w.poll.force_full || ((w.poll.ticks % full_every) == 0))
        (record w { poll = begin_pass w.poll })

-- `timer = setTimeout(pollOnce, delay)`
abbrev pub arm : ℕ → Poll → Poll
arm delay p = record p {
  timer = some p.next_handle;
  armed = p.armed ++ record { handle = p.next_handle; delay = delay } ∷ [];
  next_handle = p.next_handle + 1;
}

-- The `finally` block.
unfoldable pub settle : Bool → Bool → World → World
settle unauth hidden w =
    let p = record (w.poll) { ticks = w.poll.ticks + 1; in_flight = false } in
    if p.poll_again
    then poll_once (record w { poll = record p { poll_again = false } })
    else if unauth
    then record w { poll = p }
    else record w { poll = arm (if hidden then hidden_ms else list_ms) p }

-- The distinct mounts of the download dirs: `refreshFreeSpace` up to its `await`.
unfoldable pub space_roots : Snapshot → List Text
space_roots s =
    let dirs = add_all [] (map (λ t. TorrentSummary.download_dir t) s.torrents) in
    let base : Text = elim s.session [ none ↦ [] | some x ↦ x.download_dir ] in
    let all : List Text = elim s.session [ none ↦ dirs | some x ↦ add x.download_dir dirs ] in
    add_all [] (map (λ d. mount_of d base) all)

unfoldable pub refresh_free_space : World → World
unfolding space_roots
refresh_free_space w = record w {
  spaces = w.spaces ++ record { base = w.snap.free_space; roots = space_roots w.snap } ∷ [];
}

-- Its rest, with the daemon's answer for each root (`none` for a failed query).
unfoldable pub fill_space :
    (Text → Option FreeSpace) → List Text → List (Text × FreeSpace) → List (Text × FreeSpace)
fill_space answer [] m = m
fill_space answer (r ∷ rs) m =
    fill_space answer rs (elim (answer r) [ none ↦ m | some f ↦ insert r f m ])

unfoldable pub space_arrives : SpaceRequest → (Text → Option FreeSpace) → Snapshot → Snapshot
unfolding fill_space
space_arrives r answer s = record s { free_space = fill_space answer r.roots r.base }

-- The answer to `torrent_get` and `session_stats`.
pub record PollAnswer : Type 0 where
  pub torrents : List TorrentSummary
  pub removed : Option (List ℕ)
  pub stats : SessionStats

-- `set({ ...mergeTorrents(...), stats, history, connection: "ok", lastError: "" })`
unfoldable pub show_answer : ℕ → Bool → PollAnswer → Snapshot → Snapshot
show_answer ticks full a s =
    let m = merged s ticks a.torrents a.removed full in
    record m {
      stats = some a.stats;
      history =
          take_last 60
            (s.history ++ record { down = a.stats.download_speed; up = a.stats.upload_speed } ∷ []);
      connection = connected;
      last_error = [];
    }

-- The inspector closes if its torrent is gone.
unfoldable pub drop_focus : World → World
drop_focus w = elim w.snap.focus_id [
  | none ↦ w
  | some id ↦
      if is_some (lookup id w.snap.by_id)
      then w
      else sync_url (record w { snap = record (w.snap) { focus_id = none; detail = none } })
]

-- From a successful answer to the end of the `try` block.
unfoldable pub poll_answered : Pass → PollAnswer → World → World
unfolding show_answer
poll_answered p a w =
    let w1 = record w {
      snap = show_answer w.poll.ticks p.full a w.snap;
      poll = record (w.poll) { session_fresh = false };
    } in
    let w2 = drop_focus w1 in
    if p.forced || ((w.poll.ticks % (space_ms / list_ms)) == 0) then refresh_free_space w2 else w2

unfoldable pub poll_succeeds : Pass → PollAnswer → Bool → World → World
unfolding poll_answered
poll_succeeds p a hidden w = settle false hidden (poll_answered p a w)

-- The `catch` block: a failed full pass is still owed.
unfoldable pub poll_caught : Pass → Text → World → World
poll_caught p msg w = record w {
  poll = record (w.poll) { force_full = p.forced || w.poll.force_full };
  snap = record (w.snap) {
    connection = if text_eq msg (codes "unauthorized") then unauthorized else failed;
    last_error = msg;
  };
}

unfoldable pub poll_fails : Pass → Text → Bool → World → World
unfolding poll_caught
poll_fails p msg hidden w = settle (text_eq msg (codes "unauthorized")) hidden (poll_caught p msg w)

-- The answer of `session_get`; a failed one changes nothing.
unfoldable pub session_arrives : Session → Snapshot → Snapshot
session_arrives x s = record s { session = some x }

-- `startPolling`, once the session was read or not.
unfoldable pub polling_starts : World → World
polling_starts w =
    poll_once (record w { poll = record (w.poll) { session_fresh = is_some w.snap.session } })

unfoldable pub refresh_now : World → World
refresh_now w = poll_once (record w { poll = record (w.poll) { force_full = true } })
