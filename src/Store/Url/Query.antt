-- ===== src/Store/Url/Query.antt =====
-- What `syncUrl` writes under each key.
use transmission_ui.Prelude.{
  ◌==◌, if◌then◌else◌, Bool-cases, Text, codes, text_eq, text_eq_refl, text_eq_iff, is_empty, ℕ,
  ◌≡◌, refl, inl, inr, Bool, false, not, ◌&&◌, Option, none, some, List, [], ◌∷◌, arith,
}
use transmission_ui.Prelude.Keyed.{
  nat_eq, text_eq_inst, contains, Nodup, lookup, insert, erase, keys,
}
use transmission_ui.Prelude.Maps.{lookup-insert, lookup-erase, contains-keys}
use transmission_ui.Prelude.Sets.{IsIncluded}
use transmission_ui.Prelude.Decimal.{show}
use transmission_ui.Store.{Snapshot}
use transmission_ui.Store.Url.{
  Query, owned, adv_keys, delete_all, is_set, set_adv, set_sel, sync_query, adv_from,
}

lookup-delete_all :
    (k : Text) (ks : List Text) (q : Query)
    → lookup k (delete_all ks q) ≡ (if contains k ks then none else lookup k q)
unfolding delete_all
lookup-delete_all k [] q = refl
lookup-delete_all k (j ∷ ks) q =
    ground (arith, lookup-delete_all k ks (erase j q), lookup-erase k j q)

-- What an attribute filter writes.
abbrev pub written : Option Text → Option Text
written none = none
written (some v) = if is_set v then some v else none

abbrev first_of : Option Text → Option Text → Option Text
first_of none d = d
first_of (some a) d = some a

lookup-set_adv :
    (k : Text) (adv : List (Text × Text)) (q : Query)
    → Nodup (keys adv)
    → lookup k (set_adv adv q) ≡ first_of (written (lookup k adv)) (lookup k q)
unfolding set_adv
lookup-set_adv k [] q d = refl
lookup-set_adv k ((j, v) ∷ adv) q d = ground (
  arith,
  lookup-set_adv k adv (insert j v q) d.1,
  lookup-set_adv k adv q d.1,
  lookup-insert k j v q,
  contains-keys j adv,
  text_eq_iff j k,
  d.0,
)

-- The parameters of a view whose attribute filters are the four of the source, each once.
abbrev pub IsAdv : List (Text × Text) → Type 0
IsAdv adv = Nodup (keys adv) × IsIncluded (keys adv) adv_keys

-- The focused torrent, if `syncUrl` writes one.
abbrev pub is_shown : Option ℕ → Bool
is_shown none = false
is_shown (some n) = not (n == 0)

abbrev pub sel_text : Option ℕ → Option Text
sel_text none = none
sel_text (some n) = some (show n)

lookup-set_sel :
    (k : Text) (o : Option ℕ) (q : Query)
    → lookup k (set_sel o q)
      ≡ (if text_eq (codes "sel") k && is_shown o then sel_text o else lookup k q)
unfolding set_sel
lookup-set_sel k none q = ground arith
lookup-set_sel k (some n) q = ground (arith, lookup-insert k (codes "sel") (show n) q)

lookup-insert_if :
    (k j : Text) (b : Bool) (v : Text) (q : Query)
    → lookup k (if b then q else insert j v q)
      ≡ (if text_eq j k && not b then some v else lookup k q)
lookup-insert_if k j b v q = ground (arith, lookup-insert k j v q)

-- What the first part of `syncUrl` leaves under a key.
pub lookup-sync_query :
    (k : Text) (s : Snapshot) (q : Query)
    → Nodup (keys s.adv)
    → lookup k (sync_query s q) ≡ (
        if text_eq (codes "sel") k && is_shown s.focus_id
        then sel_text s.focus_id
        else if text_eq (codes "sort") k && not (text_eq s.sort (codes "name"))
        then some s.sort
        else first_of (written (lookup k s.adv)) (
            if text_eq (codes "filter") k && not (text_eq s.filter (codes "all"))
            then some s.filter
            else if contains k owned
            then none
            else lookup k q))
unfolding sync_query
lookup-sync_query k s q d =
    let q1 = delete_all owned q in
    let q2 = if text_eq s.filter (codes "all") then q1 else insert (codes "filter") s.filter q1 in
    let q3 = set_adv s.adv q2 in
    let q4 = if text_eq s.sort (codes "name") then q3 else insert (codes "sort") s.sort q3 in
    ground (
      arith,
      lookup-set_sel k s.focus_id q4,
      lookup-insert_if k (codes "sort") (text_eq s.sort (codes "name")) s.sort q3,
      lookup-set_adv k s.adv q2 d,
      lookup-insert_if k (codes "filter") (text_eq s.filter (codes "all")) s.filter q1,
      lookup-delete_all k owned q,
    )

-- A parameter that counts: it is there and not empty.
abbrev filled : Option Text → Option Text
filled none = none
filled (some v) = if is_empty v then none else some v

pub lookup-adv_from :
    (k : Text) (ks : List Text) (q : Query)
    → lookup k (adv_from ks q) ≡ (if contains k ks then filled (lookup k q) else none)
unfolding adv_from
lookup-adv_from k [] q = refl
lookup-adv_from k (j ∷ ks) q = elim (Bool-cases (text_eq j k)) [
  | inl same ↦
      let e = (text_eq_iff j k).0 same in
      rw e (ground (arith, lookup-adv_from k ks q, text_eq_refl k))
  | inr other ↦ ground (arith, lookup-adv_from k ks q)
]

pub not_adv :
    (k : Text) (adv : List (Text × Text))
    → IsAdv adv
    → contains k adv_keys ≡ false
    → lookup k adv ≡ none
not_adv k adv a out = ground (arith, a.1 k, contains-keys k adv)

-- A parameter that is not the store's stays as it is.
pub sync_query-others :
    (k : Text) (s : Snapshot) (q : Query)
    → IsAdv s.adv
    → contains k owned ≡ false
    → lookup k (sync_query s q) ≡ lookup k q
sync_query-others k s q a out = ground (arith, lookup-sync_query k s q a.0, not_adv k s.adv a)
