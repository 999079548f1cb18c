-- ===== src/Store/Merge.antt =====
-- `mergeTorrents` of ui/src/state/store.ts: a poll's answer is merged into the rows.
pub mod Rows
use transmission_ui.Prelude.{
  ℕ, ◌%◌, ◌==◌, Bool, true, false, not, ◌&&◌, List, [], ◌∷◌, Option, if◌then◌else◌, or_else,
}
use transmission_ui.Prelude.Keyed.{nat_eq, insert, erase, values}
use transmission_ui.Types.{TorrentSummary}
use transmission_ui.Store.{Snapshot}

abbrev pub clock_every : ℕ
clock_every = 5

-- The patch that the merge returns: nothing, a new array of the same rows, or new rows.
pub data Patch : Type 0 where
  untouched : Patch
  new_array : List TorrentSummary → Patch
  new_rows : List TorrentSummary → List (ℕ × TorrentSummary) → Patch

-- `for (const t of list) byId.set(t.id, t)`
unfoldable pub set_rows :
    List TorrentSummary → List (ℕ × TorrentSummary) → List (ℕ × TorrentSummary)
set_rows [] m = m
set_rows (t ∷ ts) m = set_rows ts (insert t.id t m)

-- `for (const id of ids) byId.delete(id)`
unfoldable pub delete_rows : List ℕ → List (ℕ × TorrentSummary) → List (ℕ × TorrentSummary)
delete_rows [] m = m
delete_rows (i ∷ is) m = delete_rows is (erase i m)

abbrev is_nil {ℓ} : {A : Type ℓ} → List A → Bool
is_nil [] = true
is_nil (x ∷ xs) = false

unfoldable pub merge_torrents : Snapshot → ℕ → List TorrentSummary → Option (List ℕ) → Bool → Patch
merge_torrents s ticks list removed full =
    if not full && (is_nil list && is_nil (or_else removed []))
    then (if (ticks % clock_every) == 0 then new_array s.torrents else untouched)
    else let by_id =
        delete_rows (or_else removed []) (set_rows list (if full then [] else s.by_id)) in
      new_rows (values by_id) by_id

-- `set(patch)`
unfoldable pub apply_patch : Patch → Snapshot → Snapshot
apply_patch untouched s = s
apply_patch (new_array ts) s = record s { torrents = ts }
apply_patch (new_rows ts m) s = record s { torrents = ts; by_id = m }

-- The rows after a poll.
unfoldable pub merged : Snapshot → ℕ → List TorrentSummary → Option (List ℕ) → Bool → Snapshot
unfolding set_rows delete_rows merge_torrents apply_patch
merged s ticks list removed full = apply_patch (merge_torrents s ticks list removed full) s
