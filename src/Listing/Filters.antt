-- ===== src/Listing/Filters.antt =====
-- The sidebar's filters and the attribute filters of ui/src/lib/model.ts. `now` is
-- the clock in milliseconds.
use transmission_ui.Prelude.{
  ltb, leb, ◌==◌, if◌then◌else◌, or_else, drop, all, Text, codes, text_eq, starts_with, is_empty, ℕ,
  ◌+◌, ◌*◌, Bool, true, not, ◌&&◌, ◌||◌, Option, none, some, List, [], ◌∷◌,
}
use transmission_ui.Prelude.Keyed.{nat_eq, text_eq_inst, contains, lookup}
use transmission_ui.Prelude.Int.{ℤ, pos, negsuc}
use transmission_ui.Types.{whole, stopped, download, seed, status_eq, TorrentSummary}
use transmission_ui.Paths.{is_under, rel_dir}
use transmission_ui.Trackers.{tracker_name}
use transmission_ui.Listing.Status.{is_active, is_checking, has_tracker_problem, uses_tracker}

-- A filter: what the sidebar calls it, and its test.
pub record Filter : Type 0 where
  pub label : Text
  pub f : TorrentSummary → Bool

abbrev pub all_filter : Filter
all_filter = record { label = codes "All torrents"; f = λ t. true }

abbrev pub error_filter : Filter
error_filter = record {
  label = codes "Error";
  f = λ t. not (TorrentSummary.error t == 0) || has_tracker_problem t;
}

-- `FILTERS`, by its keys.
abbrev pub filters : List (Text × Filter)
filters =
    (codes "all", all_filter)
    ∷ (
      codes "download",
      record { label = codes "Downloading"; f = λ t. status_eq (TorrentSummary.status t) download },
    )
    ∷ (
      codes "seed",
      record { label = codes "Seeding"; f = λ t. status_eq (TorrentSummary.status t) seed },
    )
    ∷ (codes "active", record { label = codes "Active"; f = is_active })
    ∷ (
      codes "inactive",
      record { label = codes "Inactive"; f = λ t. not (is_active t) && not (is_checking t) },
    )
    ∷ (
      codes "finished",
      record {
        label = codes "Completed";
        f = λ t.
            TorrentSummary.is_finished t
            || (leb whole (TorrentSummary.percent_done t)
                && leb whole (TorrentSummary.metadata_percent_complete t));
      },
    )
    ∷ (codes "queued", record { label = codes "Checking"; f = is_checking })
    ∷ (
      codes "stopped",
      record {
        label = codes "Stopped";
        f = λ t. status_eq (TorrentSummary.status t) stopped && (TorrentSummary.error t == 0);
      },
    )
    ∷ (codes "error", error_filter)
    ∷ []

-- The test of `dir:<path>`.
abbrev pub in_dir : Text → TorrentSummary → Bool
in_dir d t = text_eq t.download_dir d || is_under t.download_dir d

-- `a || b` of two texts.
abbrev pub or_text : Text → Text → Text
or_text a b = if is_empty a then b else a

unfoldable pub filter_fn : (Text → Text) → Text → Text → Filter
unfolding rel_dir tracker_name uses_tracker has_tracker_problem
filter_fn host_of filter base =
    if starts_with filter (codes "label:")
    then (let l = drop 6 filter in
        record { label = l; f = λ t. contains l (TorrentSummary.labels t) })
    else if starts_with filter (codes "dir:")
    then (let d = drop 4 filter in record { label = or_text (rel_dir d base) d; f = in_dir d })
    else if starts_with filter (codes "tracker:")
    then (let h = drop 8 filter in
        record { label = tracker_name h; f = λ t. uses_tracker host_of t h })
    else if text_eq filter (codes "trackererr")
    then error_filter
    else or_else (lookup filter filters) all_filter

-- `daysSince(time) < n`, where the time 0 is infinitely long ago.
abbrev days_less : ℕ → ℕ → ℕ → Bool
days_less n now time = not (time == 0) && ltb now ((time + n * 86_400) * 1000)

-- `daysSince(time) > n`
abbrev days_more : ℕ → ℕ → ℕ → Bool
days_more n now time = (time == 0) || ltb ((time + n * 86_400) * 1000) now

-- `ratioValue(r) >= n`: -2 stands for infinity, any other negative number for 0.
abbrev ratio_least : ℕ → ℤ → Bool
ratio_least n (pos r) = leb (n * whole) r
ratio_least n (negsuc k) = (k == 1) || (n == 0)

abbrev giga : ℕ
giga = 1_000_000_000

-- `ADV`, by its keys.
abbrev pub adv_tests : ℕ → List (Text × List (Text × (TorrentSummary → Bool)))
adv_tests now =
    (
      codes "size",
      (codes "lt1", λ t. ltb (TorrentSummary.size_when_done t) giga)
          ∷ (
            codes "1to10",
            λ t.
                leb giga (TorrentSummary.size_when_done t)
                && leb (TorrentSummary.size_when_done t) (10 * giga),
          )
          ∷ (codes "gt10", λ t. ltb (10 * giga) (TorrentSummary.size_when_done t))
          ∷ [],
    )
    ∷ (
      codes "age",
      (codes "1d", λ t. days_less 1 now (TorrentSummary.added_date t))
          ∷ (codes "7d", λ t. days_less 7 now (TorrentSummary.added_date t))
          ∷ (codes "30d", λ t. days_less 30 now (TorrentSummary.added_date t))
          ∷ (codes "older", λ t. not (days_less 30 now (TorrentSummary.added_date t)))
          ∷ [],
    )
    ∷ (
      codes "ratio",
      (codes "lt1", λ t. not (ratio_least 1 (TorrentSummary.upload_ratio t)))
          ∷ (codes "gte1", λ t. ratio_least 1 (TorrentSummary.upload_ratio t))
          ∷ (codes "gte2", λ t. ratio_least 2 (TorrentSummary.upload_ratio t))
          ∷ [],
    )
    ∷ (
      codes "idle",
      (codes "active", is_active)
          ∷ (
            codes "idle7",
            λ t. not (is_active t) && days_more 7 now (TorrentSummary.activity_date t),
          )
          ∷ (
            codes "idle30",
            λ t. not (is_active t) && days_more 30 now (TorrentSummary.activity_date t),
          )
          ∷ [],
    )
    ∷ []

-- The test that an attribute's value stands for, if there is one.
abbrev pub adv_test : ℕ → List (Text × Text) → Text → Option (TorrentSummary → Bool)
adv_test now adv k = elim (lookup k adv) [
  | none ↦ none
  | some v ↦
      if is_empty v || text_eq v (codes "any")
      then none
      else lookup v (or_else (lookup k (adv_tests now)) [])
]

abbrev adv_order : List Text
adv_order = codes "size" ∷ codes "age" ∷ codes "ratio" ∷ codes "idle" ∷ []

-- The test of one attribute: one that is not set, or that has no such value, lets every row pass.
abbrev pub passes : Option (TorrentSummary → Bool) → TorrentSummary → Bool
passes none t = true
passes (some f) t = f t

unfoldable pub adv_fn : ℕ → List (Text × Text) → TorrentSummary → Bool
adv_fn now adv t = all (λ k. passes (adv_test now adv k) t) adv_order
