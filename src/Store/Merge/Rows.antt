-- ===== src/Store/Merge/Rows.antt =====
-- The rows after a poll: what `mergeTorrents` leaves under each id, and that the array and the map of
-- rows stay one.
use transmission_ui.Prelude.{
  ◌==◌, if◌then◌else◌, ==_iff, Bool-cases, or_else, All, ℕ, ◌%◌, ◌≡◌, refl, ◌∙◌, inl, inr, Bool,
  true, false, Option, none, some, List, [], ◌∷◌, arith,
}
use transmission_ui.Prelude.Keyed.{
  nat_eq, text_eq_inst, contains, Nodup, lookup, insert, erase, keys, values,
}
use transmission_ui.Prelude.Maps.{lookup-insert, lookup-erase, insert-Nodup, erase-Nodup}
use transmission_ui.Types.{TorrentSummary}
use transmission_ui.Store.{Snapshot}
use transmission_ui.Store.Merge.{
  clock_every, untouched, new_array, set_rows, delete_rows, apply_patch, merged,
}

-- The last row of the answer with the id.
abbrev pub last_with : ℕ → List TorrentSummary → Option TorrentSummary
last_with i [] = none
last_with i (t ∷ ts) = elim (last_with i ts) [
  | none ↦ if t.id == i then some t else none
  | some u ↦ some u
]

-- The array is the map's values, the keys are distinct and each row has its key as id.
pub record IsTable (ts : List TorrentSummary) (m : List (ℕ × TorrentSummary)) : Type 0 where
  pub array : ts ≡ values m
  pub distinct : Nodup (keys m)
  pub own : All (λ b. b.0 ≡ TorrentSummary.id b.1) m

abbrev first_of {ℓ} : {A : Type ℓ} → Option A → Option A → Option A
first_of none d = d
first_of (some a) d = some a

lookup-set_rows :
    (i : ℕ) (ts : List TorrentSummary) (m : List (ℕ × TorrentSummary))
    → lookup i (set_rows ts m) ≡ first_of (last_with i ts) (lookup i m)
unfolding set_rows
lookup-set_rows i [] m = refl
lookup-set_rows i (t ∷ ts) m =
    ground (arith, lookup-set_rows i ts (insert t.id t m), lookup-insert i t.id t m)

lookup-delete_rows :
    (i : ℕ) (is : List ℕ) (m : List (ℕ × TorrentSummary))
    → lookup i (delete_rows is m) ≡ (if contains i is then none else lookup i m)
unfolding delete_rows
lookup-delete_rows i [] m = refl
lookup-delete_rows i (j ∷ is) m =
    ground (arith, lookup-delete_rows i is (erase j m), lookup-erase i j m)

insert-own :
    (t : TorrentSummary) (m : List (ℕ × TorrentSummary))
    → All (λ b. b.0 ≡ TorrentSummary.id b.1) m
    → All (λ b. b.0 ≡ TorrentSummary.id b.1) (insert t.id t m)
insert-own t [] h = (refl, tt)
insert-own t ((j, u) ∷ m) h = elim (Bool-cases (j == t.id)) [
  | inl same ↦ rw same ((==_iff j t.id).0 same, h.1)
  | inr other ↦ rw other (h.0, insert-own t m h.1)
]

pub erase-own :
    (i : ℕ) (m : List (ℕ × TorrentSummary))
    → All (λ b. b.0 ≡ TorrentSummary.id b.1) m
    → All (λ b. b.0 ≡ TorrentSummary.id b.1) (erase i m)
erase-own i [] h = tt
erase-own i ((j, u) ∷ m) h = elim (Bool-cases (j == i)) [
  | inl same ↦ rw same (erase-own i m h.1)
  | inr other ↦ rw other (h.0, erase-own i m h.1)
]

set_rows-IsTable :
    (ts : List TorrentSummary) (m : List (ℕ × TorrentSummary))
    → IsTable (values m) m
    → IsTable (values (set_rows ts m)) (set_rows ts m)
unfolding set_rows
set_rows-IsTable [] m h = h
set_rows-IsTable (t ∷ ts) m h = set_rows-IsTable ts (insert t.id t m) (record {
  array = refl;
  distinct = insert-Nodup t.id t m h.distinct;
  own = insert-own t m h.own;
})

pub erase-IsTable :
    (i : ℕ) (m : List (ℕ × TorrentSummary))
    → IsTable (values m) m
    → IsTable (values (erase i m)) (erase i m)
erase-IsTable i m h = record {
  array = refl;
  distinct = erase-Nodup i m h.distinct;
  own = erase-own i m h.own;
}

delete_rows-IsTable :
    (is : List ℕ) (m : List (ℕ × TorrentSummary))
    → IsTable (values m) m
    → IsTable (values (delete_rows is m)) (delete_rows is m)
unfolding delete_rows
delete_rows-IsTable [] m h = h
delete_rows-IsTable (i ∷ is) m h = delete_rows-IsTable is (erase i m) (erase-IsTable i m h)

quiet-by_id :
    (b : Bool) (s : Snapshot)
    → (apply_patch (if b then new_array s.torrents else untouched) s).by_id ≡ s.by_id
unfolding apply_patch
quiet-by_id true s = refl
quiet-by_id false s = refl

quiet-torrents :
    (b : Bool) (s : Snapshot)
    → (apply_patch (if b then new_array s.torrents else untouched) s).torrents ≡ s.torrents
unfolding apply_patch
quiet-torrents true s = refl
quiet-torrents false s = refl

-- The new map, without the shortcut for a quiet answer.
pub merged-by_id :
    (s : Snapshot) (ticks : ℕ) (list : List TorrentSummary) (removed : Option (List ℕ))
    (full : Bool)
    → (merged s ticks list removed full).by_id
      ≡ delete_rows (or_else removed []) (set_rows list (if full then [] else s.by_id))
unfolding merged
merged-by_id s ticks list removed true = refl
merged-by_id s ticks [] none false = quiet-by_id ((ticks % clock_every) == 0) s
merged-by_id s ticks [] (some []) false = quiet-by_id ((ticks % clock_every) == 0) s
merged-by_id s ticks [] (some (i ∷ is)) false = refl
merged-by_id s ticks (t ∷ ts) removed false = refl

-- Under each id a poll leaves the last row that the answer has for it, or the old row where the answer
-- has none and is no full pass, and nothing where the daemon says that the torrent was removed.
pub lookup-merged :
    (i : ℕ) (s : Snapshot) (ticks : ℕ) (list : List TorrentSummary) (removed : Option (List ℕ))
    (full : Bool)
    → lookup i (merged s ticks list removed full).by_id ≡ (
        if contains i (or_else removed [])
        then none
        else first_of (last_with i list) (if full then none else lookup i s.by_id))
lookup-merged i s ticks list removed true = rw (merged-by_id s ticks list removed true) (
    lookup-delete_rows i (or_else removed []) (set_rows list [])
    ∙ rw (lookup-set_rows i list []) refl)
lookup-merged i s ticks list removed false = rw (merged-by_id s ticks list removed false) (
    lookup-delete_rows i (or_else removed []) (set_rows list s.by_id)
    ∙ rw (lookup-set_rows i list s.by_id) refl)

start-IsTable :
    (full : Bool) (m : List (ℕ × TorrentSummary))
    → IsTable (values m) m
    → IsTable (values (if full then [] else m)) (if full then [] else m)
start-IsTable true m h = record { array = refl; distinct = tt; own = tt }
start-IsTable false m h = h

merged_rows-IsTable :
    (list : List TorrentSummary) (removed : List ℕ) (full : Bool) (s : Snapshot)
    → IsTable s.torrents s.by_id
    → IsTable
        (values (delete_rows removed (set_rows list (if full then [] else s.by_id))))
        (delete_rows removed (set_rows list (if full then [] else s.by_id)))
merged_rows-IsTable list removed full s h = delete_rows-IsTable removed _ (
    set_rows-IsTable list _
      (start-IsTable full s.by_id (record { array = refl; distinct = h.distinct; own = h.own })))

pub merged-IsTable :
    (s : Snapshot) (ticks : ℕ) (list : List TorrentSummary) (removed : Option (List ℕ))
    (full : Bool)
    → IsTable s.torrents s.by_id
    → IsTable (merged s ticks list removed full).torrents (merged s ticks list removed full).by_id
unfolding merged
merged-IsTable s ticks list removed true h = merged_rows-IsTable list (or_else removed []) true s h
merged-IsTable s ticks [] none false h =
    rw (quiet-by_id ((ticks % clock_every) == 0) s, quiet-torrents ((ticks % clock_every) == 0) s) h
merged-IsTable s ticks [] (some []) false h =
    rw (quiet-by_id ((ticks % clock_every) == 0) s, quiet-torrents ((ticks % clock_every) == 0) s) h
merged-IsTable s ticks [] (some (i ∷ is)) false h = merged_rows-IsTable [] (i ∷ is) false s h
merged-IsTable s ticks (t ∷ ts) removed false h =
    merged_rows-IsTable (t ∷ ts) (or_else removed []) false s h
