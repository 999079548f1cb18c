-- ===== src/Rows/Progress.antt =====
-- `RemoveBar` and `removalOf` of ui/src/list/List.tsx: the progress of a bulk removal.
use transmission_ui.Prelude.{
  ltb, leb, ◌==◌, if◌then◌else◌, is_some, is_id, length, Text, codes, ℕ, ◌+◌, ◌-◌, min, Bool, not,
  ◌&&◌, ◌||◌, Option, none, some, List, [], ◌∷◌, ◌++◌,
}
use transmission_ui.Prelude.Keyed.{nat_eq, text_eq_inst, contains}
use transmission_ui.Prelude.Decimal.{show}
use transmission_ui.Store.{Removing, Failure}
use transmission_ui.Prelude.Decimal.{show}
use transmission_ui.Store.{Removing, Failure}

-- `RemoveBar`
unfoldable pub is_over : Removing → Bool
is_over r = (leb (length r.ids) r.done || r.stopped) && not (is_some r.active)

unfoldable pub bar_label : Removing → Text
unfolding is_over
bar_label r =
    let total = length r.ids in
    let failures = length r.failed in
    let ok = r.done - failures in
    if is_over r
    then (if ltb 0 failures
        then codes "Removed "
          ++ show ok
          ++ codes " of "
          ++ show total
          ++ codes ", "
          ++ show failures
          ++ codes " failed"
        else codes "Removed "
          ++ (if ok == 1 then codes "1 torrent" else show ok ++ codes " torrents"))
    else codes "Deleting " ++ show (min (r.done + 1) total) ++ codes " of " ++ show total

pub data RowRemoval : Type 0 where
  failed active queued : Text → RowRemoval

abbrev failure_of : ℕ → List Failure → Option Text
failure_of k [] = none
failure_of k (f ∷ fs) = if f.id == k then some f.msg else failure_of k fs

-- `removalOf` of a batch.
unfoldable pub removal_of : Removing → ℕ → Option RowRemoval
removal_of r k = elim (failure_of k r.failed) [
  | some msg ↦ some (failed (codes "Failed: " ++ msg))
  | none ↦
      if not (contains k r.ids)
      then none
      else if is_id r.active k
      then some (active (codes "Deleting files…"))
      else if r.stopped
      then none
      else some (queued (codes "Queued for removal"))
]
