-- ===== src/Listing/Labels.antt =====
-- `labelCounts` of ui/src/lib/model.ts: the sidebar's labels.
pub mod Rows
use transmission_ui.Prelude.{or_else, Text, ℕ, ◌+◌, Bool, List, [], ◌∷◌, map, arith}
use transmission_ui.Prelude.Keyed.{nat_eq, text_eq_inst, lookup, insert}
use transmission_ui.Prelude.Comparison.{Sign, or_sign, minus, sort_by}
use transmission_ui.Types.{TorrentSummary}

pub record LabelCount : Type 0 where
  pub label : Text
  pub count : ℕ

-- `for (const l of labels) m.set(l, (m.get(l) ?? 0) + 1)`
unfoldable pub count_labels : List Text → List (Text × ℕ) → List (Text × ℕ)
count_labels [] m = m
count_labels (l ∷ ls) m = count_labels ls (insert l (or_else (lookup l m) 0 + 1) m)

unfoldable pub count_rows : List TorrentSummary → List (Text × ℕ) → List (Text × ℕ)
unfolding count_labels
count_rows [] m = m
count_rows (t ∷ ts) m = count_rows ts (count_labels t.labels m)

-- The most used first.
abbrev pub label_order : (Text → Text → Sign) → LabelCount → LabelCount → Sign
label_order collate a b = or_sign (minus b.count a.count) (collate a.label b.label)

unfoldable pub label_counts : (Text → Text → Sign) → List TorrentSummary → List LabelCount
unfolding count_rows
label_counts collate ts =
    sort_by (label_order collate)
      (map (λ (e : Text × ℕ). record { label = e.0; count = e.1 }) (count_rows ts []))
