-- ===== src/Paths.antt =====
-- ui/src/lib/paths.ts and `relDir` of ui/src/lib/model.ts: path arithmetic over code units.
use transmission_ui.Prelude.{
  ℕ, suc, Bool, not, ◌&&◌, ◌||◌, [], ◌∷◌, ◌++◌, Text, text_eq, starts_with, is_empty, if◌then◌else◌,
  take, drop, length,
}
use transmission_ui.Prelude.Split.{split_nonempty, join}

abbrev pub slash : ℕ
slash = b'/'

-- Whether `dir` lies strictly under `base`: `dir.startsWith(base + "/")`.
abbrev pub is_under : Text → Text → Bool
is_under dir base = starts_with dir (base ++ slash ∷ [])

-- The base download dir if the path is under it, else the path's first two components.
unfoldable pub mount_of : Text → Text → Text
mount_of dir base =
    if not (is_empty base) && (text_eq dir base || is_under dir base)
    then base
    else slash ∷ join slash (take 2 (split_nonempty slash dir))

-- What a row shows of a directory: relative to the base, "" at the base, else the whole path.
unfoldable pub rel_dir : Text → Text → Text
rel_dir dir base =
    if not (is_empty base) && is_under dir base
    then drop (suc (length base)) dir
    else if text_eq dir base
    then []
    else dir
