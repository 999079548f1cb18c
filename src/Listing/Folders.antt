-- ===== src/Listing/Folders.antt =====
-- `folderTree` of ui/src/lib/model.ts: the sidebar's folders, with the torrents that each holds.
pub mod Counts
pub mod Nodes
use transmission_ui.Prelude.{
  ltb, ◌==◌, if◌then◌else◌, or_else, length, Text, text_eq, is_empty, ℕ, ◌+◌, Bool, true, false,
  not, ◌&&◌, ◌||◌, List, [], ◌∷◌, ◌++◌, map, arith,
}
use transmission_ui.Prelude.Keyed.{nat_eq, text_eq_inst, contains, lookup, insert, keys}
use transmission_ui.Prelude.Split.{split, join, split_nonempty, join-split}
use transmission_ui.Types.{TorrentSummary}
use transmission_ui.Paths.{slash, is_under, mount_of, rel_dir}

-- `m.get(k) ?? 0`
abbrev pub count_at : Text → List (Text × ℕ) → ℕ
count_at k m = or_else (lookup k m) 0

-- `m.set(k, (m.get(k) ?? 0) + n)`
unfoldable pub bump : Text → ℕ → List (Text × ℕ) → List (Text × ℕ)
bump k n m = insert k (count_at k m + n) m

unfoldable pub per_dir : List TorrentSummary → List (Text × ℕ) → List (Text × ℕ)
unfolding bump
per_dir [] m = m
per_dir (t ∷ ts) m = per_dir ts (bump t.download_dir 1 m)

-- The prefixes of a text that end before a slash, the shortest first.
unfoldable pub cuts : Text → List Text
cuts [] = []
cuts (c ∷ s) = let longer = map (◌∷◌ c) (cuts s) in if c == slash then [] ∷ longer else longer

-- The prefixes `d.slice(0, i)` of the inner loop: `i` is 1 at least.
unfoldable pub ancestors : Text → List Text
unfolding cuts
ancestors [] = []
ancestors (c ∷ s) = map (◌∷◌ c) (cuts s)

unfoldable pub bump_all : List Text → ℕ → List (Text × ℕ) → List (Text × ℕ)
unfolding bump
bump_all [] n m = m
bump_all (k ∷ ks) n m = bump_all ks n (bump k n m)

-- A directory's count goes to all of its ancestors and to itself.
unfoldable pub within : List (Text × ℕ) → List (Text × ℕ) → List (Text × ℕ)
unfolding bump ancestors bump_all
within [] m = m
within ((d, n) ∷ dirs) m = within dirs (bump d n (bump_all (ancestors d) n m))

-- The order of `sort()`: by code units.
abbrev pub text_leq : Text → Text → Bool
text_leq [] t = true
text_leq (c ∷ s) [] = false
text_leq (c ∷ s) (d ∷ t) = ltb c d || ((c == d) && text_leq s t)

abbrev insert_text : Text → List Text → List Text
insert_text x [] = x ∷ []
insert_text x (y ∷ ys) = if text_leq x y then x ∷ y ∷ ys else y ∷ insert_text x ys

abbrev pub sort_texts : List Text → List Text
sort_texts [] = []
sort_texts (x ∷ xs) = insert_text x (sort_texts xs)

pub record FolderNode : Type 0 where
  pub path : Text
  pub name : Text
  pub depth : ℕ
  pub count : ℕ

-- `seen` and `out`.
pub record Tree : Type 0 where
  pub seen : List Text
  pub out : List FolderNode

abbrev pub in_base : Text → Text → Bool
in_base base d = not (is_empty base) && is_under d base

-- The part of a path that its nodes have in common, and what they are named after.
abbrev pub root_of : Text → Text → Text
root_of base d = if in_base base d then base ++ slash ∷ [] else slash ∷ []

unfoldable pub parts_of : Text → Text → List Text
unfolding rel_dir
parts_of base d =
    if in_base base d
    then split slash (rel_dir d base)
    else if text_eq d base
    then []
    else split_nonempty slash d

-- One round of the loop over `i`: the parts before and the part that names the node.
unfoldable pub add_node : List (Text × ℕ) → Text → List Text → Text → Tree → Tree
add_node counts root before part tree =
    let p = root ++ join slash (before ++ part ∷ []) in
    if contains p tree.seen then tree else record {
      seen = tree.seen ++ p ∷ [];
      out =
          tree.out
          ++ record { path = p; name = part; depth = length before; count = count_at p counts }
            ∷ [];
    }

unfoldable pub add_parts : List (Text × ℕ) → Text → List Text → List Text → Tree → Tree
unfolding add_node
add_parts counts root before [] tree = tree
add_parts counts root before (part ∷ parts) tree =
    add_parts counts root (before ++ part ∷ []) parts (add_node counts root before part tree)

unfoldable pub add_dirs : List (Text × ℕ) → Text → List Text → Tree → Tree
unfolding add_parts parts_of
add_dirs counts base [] tree = tree
add_dirs counts base (d ∷ ds) tree =
    add_dirs counts base ds (add_parts counts (root_of base d) [] (parts_of base d) tree)

unfoldable pub folder_tree : List TorrentSummary → Text → List FolderNode
unfolding per_dir within add_dirs
folder_tree torrents base =
    let dirs = per_dir torrents [] in
    (add_dirs (within dirs []) base (sort_texts (keys dirs)) (record { seen = []; out = [] })).out
