-- ===== src/Listing/Labels/Rows.antt =====
-- What `labelCounts` counts.
use transmission_ui.Prelude.{
  if◌then◌else◌, Bool-cases, or_else, length, keep, All, Text, codes, text_eq, text_eq_iff,
  starts_with, ℕ, ◌+◌, ◌≡◌, refl, inl, inr, List, [], ◌∷◌, ◌++◌, map, arith,
}
use transmission_ui.Prelude.Keyed.{nat_eq, text_eq_inst, contains, Nodup, lookup, insert, keys}
use transmission_ui.Prelude.Maps.{lookup-insert, insert-Nodup, All-lookups}
use transmission_ui.Prelude.Comparison.{Sign, All-sort_by}
use transmission_ui.Types.{TorrentSummary}
use transmission_ui.Listing.Filters.{Filter, filter_fn}
use transmission_ui.Listing.Labels.{LabelCount, count_labels, count_rows, label_order, label_counts}

-- No row has a label twice.
abbrev pub HasSets : List TorrentSummary → Type 0
HasSets ts = All (λ t. Nodup (TorrentSummary.labels t)) ts

at-count_labels :
    (k : Text) (ls : List Text) (m : List (Text × ℕ))
    → Nodup ls
    → or_else (lookup k (count_labels ls m)) 0
      ≡ or_else (lookup k m) 0 + (if contains k ls then 1 else 0)
unfolding count_labels
at-count_labels k [] m d = ground arith
at-count_labels k (l ∷ ls) m (d0, d1) =
    let ih = at-count_labels k ls (insert l (or_else (lookup l m) 0 + 1) m) d1 in
    elim (Bool-cases (text_eq l k)) [
      | inl equal ↦
          let e : l ≡ k = (text_eq_iff l k).0 equal in
          ground (arith, ih, e, lookup-insert k l (or_else (lookup l m) 0 + 1) m)
      | inr other ↦ ground (arith, ih, lookup-insert k l (or_else (lookup l m) 0 + 1) m)
    ]

at-count_rows :
    (k : Text) (ts : List TorrentSummary) (m : List (Text × ℕ))
    → HasSets ts
    → or_else (lookup k (count_rows ts m)) 0
      ≡ or_else (lookup k m) 0 + length (keep (λ t. contains k (TorrentSummary.labels t)) ts)
unfolding count_rows
at-count_rows k [] m h = ground arith
at-count_rows k (t ∷ ts) m (d, h) =
    ground (arith, at-count_rows k ts (count_labels t.labels m) h, at-count_labels k t.labels m d)

count_labels-Nodup :
    (ls : List Text) (m : List (Text × ℕ)) → Nodup (keys m) → Nodup (keys (count_labels ls m))
unfolding count_labels
count_labels-Nodup [] m d = d
count_labels-Nodup (l ∷ ls) m d =
    count_labels-Nodup ls (insert l (or_else (lookup l m) 0 + 1) m)
      (insert-Nodup l (or_else (lookup l m) 0 + 1) m d)

count_rows-Nodup :
    (ts : List TorrentSummary) (m : List (Text × ℕ))
    → Nodup (keys m)
    → Nodup (keys (count_rows ts m))
unfolding count_rows
count_rows-Nodup [] m d = d
count_rows-Nodup (t ∷ ts) m d =
    count_rows-Nodup ts (count_labels t.labels m) (count_labels-Nodup t.labels m d)

-- The entries that the sidebar shows of the counts.
All-entries :
    (Q : LabelCount → Type 0) (m : List (Text × ℕ))
    → All (λ (b : Text × ℕ). Q (record { label = b.0; count = b.1 })) m
    → All Q (map (λ (b : Text × ℕ). record { label = b.0; count = b.1 }) m)
All-entries Q [] h = tt
All-entries Q (b ∷ m) (q, h) = (q, All-entries Q m h)

-- The rows that a click on the label shows.
abbrev pub labelled : (Text → Text) → Text → List TorrentSummary → Text → List TorrentSummary
labelled host_of base ts l = keep (Filter.f (filter_fn host_of (codes "label:" ++ l) base)) ts

label_filter :
    (host_of : Text → Text) (base l : Text)
    → Filter.f (filter_fn host_of (codes "label:" ++ l) base)
      ≡ (λ t. contains l (TorrentSummary.labels t))
unfolding filter_fn starts_with
label_filter host_of base l = refl

-- The number beside a label in the sidebar is the number of rows that the label's filter shows, provided
-- that no row has a label twice.
pub label_counts_lem :
    (host_of : Text → Text) (collate : Text → Text → Sign) (base : Text) (ts : List TorrentSummary)
    → HasSets ts
    → All
        (λ e. LabelCount.count e ≡ length (labelled host_of base ts (LabelCount.label e)))
        (label_counts collate ts)
unfolding label_counts
label_counts_lem host_of collate base ts h =
    let m = count_rows ts [] in
    All-sort_by _ (label_order collate) _ (
      All-entries (λ e. LabelCount.count e ≡ length (labelled host_of base ts (LabelCount.label e)))
        m
        (All-lookups (λ k n. n ≡ length (labelled host_of base ts k)) m (count_rows-Nodup ts [] tt)
          (λ k n e. rw (label_filter host_of base k) (ground (arith, e, at-count_rows k ts [] h)))))
