-- ===== src/Listing/Health/Rows.antt =====
-- What `computeHealth` counts of a tracker.
use transmission_ui.Prelude.{
  if◌then◌else◌, Bool-cases, or_else, length, keep, any, All, Text, codes, text_eq, text_eq_iff,
  starts_with, ℕ, ◌+◌, ◌≡◌, refl, ◌⊎◌, inl, inr, Bool, true, false, not, ◌&&◌, List, [], ◌∷◌, ◌++◌,
  arith,
}
use transmission_ui.Prelude.Keyed.{nat_eq, text_eq_inst, contains, add, Nodup, lookup, insert, keys}
use transmission_ui.Prelude.Sets.{contains-add}
use transmission_ui.Prelude.Maps.{lookup-insert, insert-Nodup, All-lookups}
use transmission_ui.Types.{TrackerStat, TorrentSummary}
use transmission_ui.Listing.Status.{
  TrackerFailure, fine, tracker_level, torrent_level, client_rejected, classify_announce,
  used_trackers, uses_tracker,
}
use transmission_ui.Listing.Filters.{Filter, filter_fn}
use transmission_ui.Prelude.Comparison.{Sign, All-sort_by}
use transmission_ui.Listing.Health.{
  TrackerHealth, HostCount, no_count, note_tracker, clock_after, still_used, health_of, healths,
  note_trackers, count_hosts, compute_health,
}

abbrev count_of : Text → List (Text × HostCount) → ℕ
count_of k m = HostCount.count (or_else (lookup k m) no_count)

TrackerFailure-cases :
    (x : TrackerFailure)
    → (x ≡ fine) ⊎ ((x ≡ tracker_level) ⊎ ((x ≡ torrent_level) ⊎ (x ≡ client_rejected)))
TrackerFailure-cases fine = inl refl
TrackerFailure-cases tracker_level = inr (inl refl)
TrackerFailure-cases torrent_level = inr (inr (inl refl))
TrackerFailure-cases client_rejected = inr (inr (inr refl))

note_tracker-count :
    (now : ℕ) (ts : TrackerStat) (h : HostCount)
    → HostCount.count (note_tracker now ts h) ≡ h.count + 1
unfolding note_tracker
note_tracker-count now ts h = elim (TrackerFailure-cases (classify_announce ts)) [
  | inl e ↦ rw (e, note_tracker) refl
  | inr (inl e) ↦ rw (e, note_tracker) refl
  | inr (inr (inl e)) ↦ rw (e, note_tracker) refl
  | inr (inr (inr e)) ↦ rw (e, note_tracker) refl
]

count_of-insert :
    (k j : Text) (h : HostCount) (m : List (Text × HostCount))
    → count_of k (insert j h m) ≡ (if text_eq j k then h.count else count_of k m)
count_of-insert k j h m = ground (arith, lookup-insert k j h m)

-- The rows that a click on the tracker shows.
abbrev pub announcing : (Text → Text) → Text → List TorrentSummary → Text → List TorrentSummary
announcing host_of base ts host =
    keep (Filter.f (filter_fn host_of (codes "tracker:" ++ host) base)) ts

tracker_filter :
    (host_of : Text → Text) (base host : Text)
    → Filter.f (filter_fn host_of (codes "tracker:" ++ host) base)
      ≡ (λ t. uses_tracker host_of t host)
unfolding filter_fn starts_with
tracker_filter host_of base host = refl

either_way :
    (b : Bool) (x y : List (Text × HostCount))
    → Nodup (keys x)
    → Nodup (keys y)
    → Nodup (keys (if b then x else y))
either_way true x y p q = p
either_way false x y p q = q

module _ (host_of : Text → Text) (now : ℕ) where
  count_of-note_trackers :
      (k : Text) (seen : List Text) (tss : List TrackerStat) (m : List (Text × HostCount))
      → count_of k (note_trackers host_of now seen tss m)
        ≡ count_of k m
          + (if not (contains k seen)
                && any (λ ts. text_eq (host_of (TrackerStat.announce ts)) k) tss
              then 1
              else 0)
  unfolding note_trackers
  count_of-note_trackers k seen [] m = ground arith
  count_of-note_trackers k seen (ts ∷ rest) m =
      let host = host_of ts.announce in
      let old = or_else (lookup host m) no_count in
      let m1 = insert host (note_tracker now ts old) m in
      let on = count_of-note_trackers k (add host seen) rest m1 in
      let skip = count_of-note_trackers k seen rest m in
      let put = count_of-insert k host (note_tracker now ts old) m in
      elim (Bool-cases (text_eq host k)) [
        | inl equal ↦
            let e : host ≡ k = (text_eq_iff host k).0 equal in
            ground
              (arith, on, skip, put, note_tracker-count now ts old, contains-add k host seen, e)
        | inr other ↦
            ground (arith, on, skip, put, note_tracker-count now ts old, contains-add k host seen)
      ]

  count_of-count_hosts :
      (k : Text) (ts : List TorrentSummary) (m : List (Text × HostCount))
      → count_of k (count_hosts host_of now ts m)
        ≡ count_of k m + length (keep (λ t. uses_tracker host_of t k) ts)
  unfolding count_hosts uses_tracker
  count_of-count_hosts k [] m = omega arith
  count_of-count_hosts k (t ∷ ts) m = ground (
    arith,
    count_of-count_hosts k ts (note_trackers host_of now [] (used_trackers t) m),
    count_of-note_trackers k [] (used_trackers t) m,
  )

  note_trackers-Nodup :
      (seen : List Text) (tss : List TrackerStat) (m : List (Text × HostCount))
      → Nodup (keys m)
      → Nodup (keys (note_trackers host_of now seen tss m))
  unfolding note_trackers
  note_trackers-Nodup seen [] m d = d
  note_trackers-Nodup seen (ts ∷ rest) m d =
      let host = host_of ts.announce in
      let h = note_tracker now ts (or_else (lookup host m) no_count) in
      either_way (contains host seen) _ _ (note_trackers-Nodup seen rest m d)
        (note_trackers-Nodup (add host seen) rest (insert host h m) (insert-Nodup host h m d))

  count_hosts-Nodup :
      (ts : List TorrentSummary) (m : List (Text × HostCount))
      → Nodup (keys m)
      → Nodup (keys (count_hosts host_of now ts m))
  unfolding count_hosts
  count_hosts-Nodup [] m d = d
  count_hosts-Nodup (t ∷ ts) m d =
      count_hosts-Nodup ts (note_trackers host_of now [] (used_trackers t) m)
        (note_trackers-Nodup [] (used_trackers t) m d)

  All-healths :
      (P : Text → ℕ → Type 0) (hosts : List (Text × HostCount)) (f : List (Text × ℕ))
      → All (λ (b : Text × HostCount). P (b.0) (HostCount.count (b.1))) hosts
      → All (λ h. P (TrackerHealth.host h) (TrackerHealth.count h)) (healths now hosts f).0
  unfolding healths health_of
  All-healths P [] f h = tt
  All-healths P (b ∷ hosts) f (p, h) = (p, All-healths P hosts (clock_after b.0 b.1 f) h)

  -- The number beside a tracker in the sidebar is the number of rows that the tracker's filter shows:
  -- both go by the trackers that a row uses.
  pub compute_health-rows :
      (collate : Text → Text → Sign) (base : Text) (ts : List TorrentSummary)
      (failing_since : List (Text × ℕ))
      → All
          (λ h. TrackerHealth.count h ≡ length (announcing host_of base ts (TrackerHealth.host h)))
          (compute_health host_of now collate ts failing_since).0
  unfolding compute_health
  compute_health-rows collate base ts failing_since =
      let hosts = count_hosts host_of now ts [] in
      let P : Text → ℕ → Type 0 = λ k n. n ≡ length (announcing host_of base ts k) in
      All-sort_by _ _ _ (
        All-healths P hosts (still_used ts hosts failing_since) (
          All-lookups (λ k h. P k (HostCount.count h)) hosts (count_hosts-Nodup ts [] tt)
            (λ k h e.
              rw (tracker_filter host_of base k)
                (ground (arith, e, count_of-count_hosts k ts [])))))
