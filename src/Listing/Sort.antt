-- ===== src/Listing/Sort.antt =====
-- `sortFn` of ui/src/lib/model.ts. The locale's collation is a parameter.
pub mod Consistent
use transmission_ui.Prelude.{◌==◌, if◌then◌else◌, Text, is_empty, ℕ, Bool, List, [], ◌∷◌, arith}
use transmission_ui.Prelude.Int.{ℤ, pos, negsuc, is_negative, is_zero, neg, sub_ℕ}
use transmission_ui.Prelude.Comparison.{Sign, before, same, after, or_sign, minus, directed}
use transmission_ui.Types.{TrackerStat, TorrentSummary}
use transmission_ui.Paths.{slash, is_under, mount_of, rel_dir}
use transmission_ui.Trackers.{tracker_name}
use transmission_ui.Listing.Status.{rank, Swarm, swarm_of}

pub data SortKey : Type 0 where
  by_state by_name by_size by_progress by_down by_up by_ratio by_eta by_added by_activity by_seeds
        by_uploaded by_tracker by_path :
      SortKey

-- `ratioValue`: -2 stands for infinity, any other negative number for 0.
pub data Ratio : Type 0 where
  finite : ℕ → Ratio
  infinite : Ratio

abbrev pub ratio_value : ℤ → Ratio
ratio_value (pos r) = finite r
ratio_value (negsuc k) = if k == 1 then infinite else finite 0

-- `a - b`, where infinity less itself is NaN.
abbrev pub ratio_minus : Ratio → Ratio → Sign
ratio_minus (finite a) (finite b) = minus a b
ratio_minus (finite a) infinite = Sign.before
ratio_minus infinite (finite b) = Sign.after
ratio_minus infinite infinite = Sign.same

-- An unknown ETA is the longest: `Number.MAX_SAFE_INTEGER`.
abbrev pub eta_value : ℤ → ℕ
eta_value (pos n) = n
eta_value (negsuc k) = 9_007_199_254_740_991

module _ (collate : Text → Text → Sign) where
  -- The collation of the names, and `num` and `text` with the field that they compare.
  abbrev pub names : TorrentSummary → TorrentSummary → Sign
  names a b = collate a.name b.name

  abbrev pub num : Bool → (TorrentSummary → ℕ) → TorrentSummary → TorrentSummary → Sign
  num up f a b = or_sign (directed up (minus (f a) (f b))) (names a b)

  abbrev pub text : Bool → (TorrentSummary → Text) → TorrentSummary → TorrentSummary → Sign
  text up f a b =
      if is_empty (f a)
      then (if is_empty (f b)
          then or_sign (directed up (collate (f a) (f b))) (names a b)
          else Sign.after)
      else if is_empty (f b)
      then Sign.before
      else or_sign (directed up (collate (f a) (f b))) (names a b)

unfoldable pub first_tracker_name : (Text → Text) → TorrentSummary → Text
unfolding tracker_name
first_tracker_name host_of t = elim t.tracker_stats [
  | [] ↦ []
  | ts ∷ rest ↦ tracker_name (host_of (TrackerStat.announce ts))
]

module _ (host_of : Text → Text) (collate : Text → Text → Sign) where
  unfoldable pub sort_fn : SortKey → Bool → Text → TorrentSummary → TorrentSummary → Sign
  unfolding first_tracker_name rank swarm_of rel_dir
  sort_fn by_name up base a b = directed up (names collate a b)
  sort_fn by_size up base a b = num collate up (λ t. TorrentSummary.size_when_done t) a b
  sort_fn by_progress up base a b = num collate up (λ t. TorrentSummary.percent_done t) a b
  sort_fn by_down up base a b = num collate up (λ t. TorrentSummary.rate_download t) a b
  sort_fn by_up up base a b = num collate up (λ t. TorrentSummary.rate_upload t) a b
  sort_fn by_ratio up base a b =
      or_sign (directed up (ratio_minus (ratio_value a.upload_ratio) (ratio_value b.upload_ratio)))
        (names collate a b)
  sort_fn by_eta up base a b = num collate up (λ t. eta_value (TorrentSummary.eta t)) a b
  sort_fn by_added up base a b = num collate up (λ t. TorrentSummary.added_date t) a b
  sort_fn by_activity up base a b = num collate up (λ t. TorrentSummary.activity_date t) a b
  sort_fn by_seeds up base a b = num collate up (λ t. Swarm.seeds (swarm_of t)) a b
  sort_fn by_uploaded up base a b = num collate up (λ t. TorrentSummary.uploaded_ever t) a b
  sort_fn by_tracker up base a b = text collate up (first_tracker_name host_of) a b
  sort_fn by_path up base a b =
      text collate up (λ t. rel_dir (TorrentSummary.download_dir t) base) a b
  sort_fn by_state up base a b =
      or_sign (directed up (minus (rank a) (rank b)))
        (or_sign (minus b.activity_date a.activity_date) (names collate a b))
