-- ===== src/Store/Url.antt =====
-- The deep links of ui/src/state/store.ts: `syncUrl`, and the part of the first snapshot that is read
-- from the address bar. A query is the list of its parameters, in order.
pub mod Query
pub mod RoundTrip
use transmission_ui.Prelude.{
  ℕ, ◌==◌, Bool, not, ◌&&◌, List, [], ◌∷◌, Option, none, some, Text, codes, text_eq, is_empty,
  if◌then◌else◌,
}
use transmission_ui.Prelude.Keyed.{text_eq_inst, lookup, insert, erase}
use transmission_ui.Prelude.Decimal.{show, read_from}
use transmission_ui.Store.{Snapshot, World}

abbrev pub Query : Type 0
Query = List (Text × Text)

-- The parameters that the store owns.
abbrev pub owned : List Text
owned =
    codes "filter"
    ∷ codes "size"
    ∷ codes "age"
    ∷ codes "ratio"
    ∷ codes "idle"
    ∷ codes "sort"
    ∷ codes "sel"
    ∷ []

abbrev pub adv_keys : List Text
adv_keys = codes "size" ∷ codes "age" ∷ codes "ratio" ∷ codes "idle" ∷ []

-- `for (const k of ks) q.delete(k)`
unfoldable pub delete_all : List Text → Query → Query
delete_all [] q = q
delete_all (k ∷ ks) q = delete_all ks (erase k q)

-- `v && v !== "any"`
abbrev pub is_set : Text → Bool
is_set v = not (is_empty v) && not (text_eq v (codes "any"))

unfoldable pub set_adv : List (Text × Text) → Query → Query
set_adv [] q = q
set_adv ((k, v) ∷ adv) q = set_adv adv (if is_set v then insert k v q else q)

-- `if (snap.focusId) q.set("sel", String(snap.focusId))`: 0 is falsy too.
unfoldable pub set_sel : Option ℕ → Query → Query
set_sel none q = q
set_sel (some n) q = if n == 0 then q else insert (codes "sel") (show n) q

unfoldable pub sync_query : Snapshot → Query → Query
unfolding delete_all set_adv set_sel
sync_query s q =
    let q1 = delete_all owned q in
    let q2 = if text_eq s.filter (codes "all") then q1 else insert (codes "filter") s.filter q1 in
    let q3 = set_adv s.adv q2 in
    let q4 = if text_eq s.sort (codes "name") then q3 else insert (codes "sort") s.sort q3 in
    set_sel s.focus_id q4

unfoldable pub sync_url : World → World
sync_url w = record w { query = sync_query w.snap w.query }

-- `params.get(k) || d`
abbrev pub param_or : Text → Text → Query → Text
param_or k d q = elim (lookup k q) [ none ↦ d | some v ↦ if is_empty v then d else v ]

unfoldable pub adv_from : List Text → Query → List (Text × Text)
adv_from [] q = []
adv_from (k ∷ ks) q = elim (lookup k q) [
  | none ↦ adv_from ks q
  | some v ↦ if is_empty v then adv_from ks q else (k, v) ∷ adv_from ks q
]

-- The view that a deep link opens: filter, attribute filters, sort key and focused torrent. `Number`
-- is modelled on decimal digits; another text (NaN in the source) opens nothing.
pub record View : Type 0 where
  pub filter : Text
  pub adv : List (Text × Text)
  pub sort : Text
  pub focus_id : Option ℕ

abbrev sel_from : Option Text → Option ℕ
sel_from none = none
sel_from (some v) = if is_empty v then none else read_from 0 v

unfoldable pub view_of : Query → View
unfolding adv_from
view_of q = record {
  filter = param_or (codes "filter") (codes "all") q;
  adv = adv_from adv_keys q;
  sort = param_or (codes "sort") (codes "name") q;
  focus_id = sel_from (lookup (codes "sel") q);
}
