-- ===== src/Listing/Folders/Nodes.antt =====
-- What the nodes of the folder tree say.
use transmission_ui.Prelude.{
  Bool-cases, length, keep, All, All-append, Text, codes, starts_with, is_empty, ℕ, ◌≡◌, refl, sym,
  ap, subst, ◌∙◌, inl, inr, false, List, [], ◌∷◌, ◌++◌, map, arith,
}
use transmission_ui.Prelude.Keyed.{nat_eq, text_eq_inst, contains, add, Nodup, keys}
use transmission_ui.Prelude.Sets.{add-Nodup}
use transmission_ui.Prelude.Split.{join}
use transmission_ui.Types.{TorrentSummary}
use transmission_ui.Paths.{slash, is_under}
use transmission_ui.Listing.Filters.{Filter, in_dir, filter_fn}
use transmission_ui.Listing.Folders.{
  count_at, per_dir, within, sort_texts, FolderNode, Tree, root_of, parts_of, add_node, add_parts,
  add_dirs, folder_tree,
}
use transmission_ui.Listing.Folders.Counts.{count_at-folders}

-- A node's count is that of its path, which is not empty.
abbrev IsCounted : List (Text × ℕ) → FolderNode → Type 0
IsCounted counts node = (is_empty node.path ≡ false) × (node.count ≡ count_at node.path counts)

-- The paths of the nodes are those seen, each once.
abbrev IsTree : List (Text × ℕ) → Tree → Type 0
IsTree counts tree =
    (map (λ n. FolderNode.path n) tree.out ≡ tree.seen)
    × Nodup tree.seen
    × All (IsCounted counts) tree.out

map-append :
    (xs ys : List FolderNode)
    → map (λ n. FolderNode.path n) (xs ++ ys)
      ≡ map (λ n. FolderNode.path n) xs ++ map (λ n. FolderNode.path n) ys
map-append [] ys = refl
map-append (x ∷ xs) ys = ap (◌∷◌ (FolderNode.path x)) (map-append xs ys)

is_empty-append : (s : Text) (t : Text) → is_empty s ≡ false → is_empty (s ++ t) ≡ false
is_empty-append [] t h = ground arith
is_empty-append (c ∷ s) t h = refl

snoc-Nodup : (p : Text) (xs : List Text) → contains p xs ≡ false → Nodup xs → Nodup (xs ++ p ∷ [])
snoc-Nodup p xs fresh d =
    let e : add p xs ≡ xs ++ p ∷ [] = rw fresh refl in
    subst (λ (ys : List Text). Nodup ys) e (add-Nodup p xs d)

add_node-IsTree :
    (counts : List (Text × ℕ)) (root : Text) (before : List Text) (part : Text) (tree : Tree)
    → is_empty root ≡ false
    → IsTree counts tree
    → IsTree counts (add_node counts root before part tree)
unfolding add_node
add_node-IsTree counts root before part tree full (same, once, counted) =
    let p = root ++ join slash (before ++ part ∷ []) in
    let node : FolderNode = record {
      path = p;
      name = part;
      depth = length before;
      count = count_at p counts;
    } in
    elim (Bool-cases (contains p tree.seen)) [
      | inl old ↦ rw (old, add_node) (same, once, counted)
      | inr fresh ↦
          rw (fresh, add_node)
            (
              map-append tree.out (node ∷ []) ∙ ap (λ (ys : List Text). ys ++ p ∷ []) same,
              snoc-Nodup p tree.seen fresh once,
              All-append (IsCounted counts) tree.out (node ∷ []) counted
                  ((is_empty-append root _ full, refl), tt),
            )
    ]

add_parts-IsTree :
    (counts : List (Text × ℕ)) (root : Text) (before parts : List Text) (tree : Tree)
    → is_empty root ≡ false
    → IsTree counts tree
    → IsTree counts (add_parts counts root before parts tree)
unfolding add_parts
add_parts-IsTree counts root before [] tree full h = h
add_parts-IsTree counts root before (part ∷ parts) tree full h =
    add_parts-IsTree counts root (before ++ part ∷ []) parts (add_node counts root before part tree)
      full (add_node-IsTree counts root before part tree full h)

root_of-full : (base d : Text) → is_empty (root_of base d) ≡ false
root_of-full [] d = refl
root_of-full (c ∷ base) d = elim (Bool-cases (is_under d (c ∷ base))) [
  | inl under ↦ rw under refl
  | inr outside ↦ rw outside refl
]

add_dirs-IsTree :
    (counts : List (Text × ℕ)) (base : Text) (dirs : List Text) (tree : Tree)
    → IsTree counts tree
    → IsTree counts (add_dirs counts base dirs tree)
unfolding add_dirs
add_dirs-IsTree counts base [] tree h = h
add_dirs-IsTree counts base (d ∷ ds) tree h =
    add_dirs-IsTree counts base ds (add_parts counts (root_of base d) [] (parts_of base d) tree)
      (add_parts-IsTree counts (root_of base d) [] (parts_of base d) tree (root_of-full base d) h)

-- The rows that a click on the folder shows.
abbrev pub rows_in : (Text → Text) → Text → List TorrentSummary → Text → List TorrentSummary
rows_in host_of base ts path = keep (Filter.f (filter_fn host_of (codes "dir:" ++ path) base)) ts

dir_filter :
    (host_of : Text → Text) (base path : Text)
    → Filter.f (filter_fn host_of (codes "dir:" ++ path) base) ≡ in_dir path
unfolding filter_fn starts_with
dir_filter host_of base path = refl

count_rows :
    (host_of : Text → Text) (base path : Text) (ts : List TorrentSummary)
    → is_empty path ≡ false
    → count_at path (within (per_dir ts []) []) ≡ length (rows_in host_of base ts path)
count_rows host_of base [] ts full = ground arith
count_rows host_of base (e ∷ p) ts full =
    rw (dir_filter host_of base (e ∷ p)) (count_at-folders e p ts)

All-rows :
    (host_of : Text → Text) (base : Text) (ts : List TorrentSummary) (nodes : List FolderNode)
    → All (IsCounted (within (per_dir ts []) [])) nodes
    → All (λ n. FolderNode.count n ≡ length (rows_in host_of base ts (FolderNode.path n))) nodes
All-rows host_of base ts [] h = tt
All-rows host_of base ts (n ∷ ns) ((full, same), h) =
    (same ∙ count_rows host_of base n.path ts full, All-rows host_of base ts ns h)

-- The sidebar's folder tree has no path twice, and the number beside a folder is the number of rows
-- that the folder's filter shows.
pub folder_tree_lem :
    (host_of : Text → Text) (base : Text) (ts : List TorrentSummary)
    → Nodup (map (λ n. FolderNode.path n) (folder_tree ts base))
      × All
          (λ n. FolderNode.count n ≡ length (rows_in host_of base ts (FolderNode.path n)))
          (folder_tree ts base)
unfolding folder_tree
folder_tree_lem host_of base ts =
    let counts = within (per_dir ts []) [] in
    let start : Tree = record { seen = []; out = [] } in
    let (same, once, counted) =
      add_dirs-IsTree counts base (sort_texts (keys (per_dir ts []))) start (refl, tt, tt) in
    (subst (λ (ps : List Text). Nodup ps) (sym same) once, All-rows host_of base ts _ counted)
