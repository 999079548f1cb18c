-- ===== src/Rows.antt =====
-- ui/src/list/List.tsx without its markup: the rows the list shows, the clicks on them, and the selection. The
-- case of the search text is folded by `lower`.
pub mod Box
pub mod Columns
pub mod Progress
pub mod Tests
use transmission_ui.Prelude.{
  ltb, ◌==◌, if◌then◌else◌, is_id, length, take, drop, keep, Text, starts_with, is_empty, ℕ, suc,
  ◌+◌, ◌-◌, min, max, Bool, ◌&&◌, ◌||◌, Option, none, some, List, [], ◌∷◌, map, arith,
}
use transmission_ui.Prelude.Int.{ℤ, pos, negsuc, sub_ℕ}
use transmission_ui.Prelude.Keyed.{nat_eq, text_eq_inst, contains, add, delete, add_all}
use transmission_ui.Prelude.Comparison.{Sign, sort_by}
use transmission_ui.Prelude.Spaces.{trim}
use transmission_ui.Prelude.Decimal.{show}
use transmission_ui.Types.{TorrentSummary}
use transmission_ui.Listing.Filters.{Filter, filter_fn, adv_fn}
use transmission_ui.Listing.Status.{uses_tracker}
use transmission_ui.Listing.Sort.{SortKey, sort_fn}
use transmission_ui.Store.{Snapshot, World, Removing, Failure}
use transmission_ui.Store.Url.{sync_url}
use transmission_ui.Store.Actions.{focus}

-- `s.includes(q)`
abbrev pub includes : Text → Text → Bool
includes q [] = is_empty q
includes q (c ∷ s) = starts_with (c ∷ s) q || includes q s

-- `list`
unfoldable pub visible :
    (Text → Text)
    → (Text → Text → Sign)
    → (Text → Text)
    → ℕ
    → Text
    → Snapshot
    → SortKey
    → Bool
    → List TorrentSummary
unfolding filter_fn adv_fn sort_fn starts_with
visible host_of collate lower now base s key up =
    let q = lower (trim s.search) in
    let f = (filter_fn host_of s.filter base).f in
    let filtered = keep (adv_fn now s.adv) (keep f s.torrents) in
    let found = keep (λ t. is_empty q || includes q (lower (TorrentSummary.name t))) filtered in
    sort_by (sort_fn host_of collate key up base) found

-- `total`
abbrev pub total_size : List TorrentSummary → ℕ
total_size [] = 0
total_size (t ∷ ts) = t.size_when_done + total_size ts

-- `ids.indexOf(id)`
abbrev pub place : ℕ → List ℕ → Option ℕ
place k [] = none
place k (i ∷ is) =
    if i == k then some 0 else elim (place k is) [ none ↦ none | some n ↦ some (suc n) ]

-- `ids.slice(from, to)` with a start of -1, which counts from the end, and an end that is not negative.
abbrev pub slice_last : ℕ → List ℕ → List ℕ
slice_last to is = drop (length is - 1) (take to is)

-- `ids.slice(Math.min(a, b), Math.max(a, b) + 1)`, where -1 stands for an index that is not there.
abbrev pub between : Option ℕ → Option ℕ → List ℕ → List ℕ
between (some a) (some b) is = drop (min a b) (take (max a b + 1) is)
between (some a) none is = slice_last (a + 1) is
between none (some b) is = slice_last (b + 1) is
between none none is = []

-- Where a row was clicked, and the keys that were down.
pub record Click : Type 0 where
  pub id : ℕ
  pub on_box : Bool
  pub meta : Bool
  pub ctrl : Bool
  pub shift : Bool

-- `focusId ?? [...selected][0]`
abbrev pub anchor_of : Option ℕ → List ℕ → Option ℕ
anchor_of (some f) sel = some f
anchor_of none [] = none
anchor_of none (i ∷ sel) = some i

abbrev toggled : ℕ → List ℕ → List ℕ
toggled k sel = if contains k sel then delete k sel else add k sel

abbrev select : List ℕ → World → World
select sel w = record w { snap = record (w.snap) { selected = sel } }

-- `onRowClick` on the row of a torrent; the ids are those of the rows.
unfoldable pub row_click : List ℕ → Click → World → World
row_click ids e w =
    let s = w.snap in
    let focused = focus (if is_id s.focus_id e.id then none else some e.id) w in
    if e.on_box || e.meta || e.ctrl
    then select (toggled e.id s.selected) w
    else elim (if e.shift then anchor_of s.focus_id s.selected else none) [
      | none ↦ focused
      | some anchor ↦
          select (add_all s.selected (between (place anchor ids) (place e.id ids) ids)) w
    ]

-- The torrents that the menu of a row acts on.
unfoldable pub menu_ids : ℕ → List ℕ → List ℕ
menu_ids k sel = if contains k sel then sel else k ∷ []

-- `affected`
unfoldable pub affected : (Text → Text) → Text → List TorrentSummary → List ℕ
unfolding uses_tracker
affected host_of host ts =
    map (λ (t : TorrentSummary). t.id) (keep (λ t. uses_tracker host_of t host) ts)

abbrev pub sel_ids : List ℕ → List ℕ → List ℕ
sel_ids ids sel = keep (λ k. contains k ids) sel

-- The box that selects all: `allSel`, `someSel`, or neither.
pub data BoxState : Type 0 where
  on some_on off : BoxState

unfoldable pub box_of : List ℕ → List ℕ → BoxState
box_of ids sel =
    let n = length (sel_ids ids sel) in
    if ltb 0 (length ids) && (n == length ids) then on else if ltb 0 n then some_on else off
