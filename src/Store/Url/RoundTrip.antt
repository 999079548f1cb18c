-- ===== src/Store/Url/RoundTrip.antt =====
-- A view written to the address bar is the view that a later visit opens.
use transmission_ui.Prelude.{
  ◌==◌, if◌then◌else◌, Bool-cases, Option-cases, Text, codes, text_eq, text_eq_iff, is_empty, ℕ,
  ◌≡◌, refl, subst, inl, inr, true, false, Option, none, some, List, arith,
}
use transmission_ui.Prelude.Keyed.{nat_eq, text_eq_inst, contains, lookup}
use transmission_ui.Prelude.Decimal.{read_from-show, show-ne-empty}
use transmission_ui.Store.{Snapshot}
use transmission_ui.Store.Url.{Query, adv_keys, sync_query, adv_from, View, view_of}
use transmission_ui.Store.Url.Query.{
  written, IsAdv, is_shown, sel_text, lookup-sync_query, lookup-adv_from, not_adv,
}

-- The focus that a deep link can say: the source writes no torrent 0.
abbrev pub linkable : Option ℕ → Option ℕ
linkable none = none
linkable (some n) = if n == 0 then none else some n

-- What the four parameters of the view say after `syncUrl`.
sync_query-filter :
    (s : Snapshot) (q : Query)
    → IsAdv s.adv
    → lookup (codes "filter") (sync_query s q)
      ≡ (if text_eq s.filter (codes "all") then none else some s.filter)
unfolding text_eq
sync_query-filter s q a =
    ground (arith, lookup-sync_query (codes "filter") s q a.0, not_adv (codes "filter") s.adv a)

sync_query-sort :
    (s : Snapshot) (q : Query)
    → IsAdv s.adv
    → lookup (codes "sort") (sync_query s q)
      ≡ (if text_eq s.sort (codes "name") then none else some s.sort)
unfolding text_eq
sync_query-sort s q a =
    ground (arith, lookup-sync_query (codes "sort") s q a.0, not_adv (codes "sort") s.adv a)

sync_query-sel :
    (s : Snapshot) (q : Query)
    → IsAdv s.adv
    → lookup (codes "sel") (sync_query s q)
      ≡ (if is_shown s.focus_id then sel_text s.focus_id else none)
unfolding text_eq
sync_query-sel s q a =
    ground (arith, lookup-sync_query (codes "sel") s q a.0, not_adv (codes "sel") s.adv a)

not_key :
    (j k : Text) (ks : List Text)
    → contains j ks ≡ false
    → contains k ks ≡ true
    → text_eq j k ≡ false
not_key j k ks out known = elim (Bool-cases (text_eq j k)) [
  | inl same ↦
      let e : contains k ks ≡ false =
        subst (λ (x : Text). contains x ks ≡ false) ((text_eq_iff j k).0 same) out in
      cc (e, known)
  | inr other ↦ other
]

sync_query-adv :
    (k : Text) (s : Snapshot) (q : Query)
    → IsAdv s.adv
    → contains k adv_keys ≡ true
    → lookup k (sync_query s q) ≡ written (lookup k s.adv)
sync_query-adv k s q a known = ground (
  arith,
  lookup-sync_query k s q a.0,
  not_key (codes "sel") k adv_keys (unfold text_eq in refl) known,
  not_key (codes "sort") k adv_keys (unfold text_eq in refl) known,
  not_key (codes "filter") k adv_keys (unfold text_eq in refl) known,
  known,
)

pub record IsReopened (s : Snapshot) (v : View) : Type 0 where
  pub filter : v.filter ≡ s.filter
  pub sort : v.sort ≡ s.sort
  pub focus_id : v.focus_id ≡ linkable s.focus_id
  pub adv : (k : Text) → contains k adv_keys ≡ true → lookup k v.adv ≡ written (lookup k s.adv)

adv_from-sync_query :
    (k : Text) (s : Snapshot) (q : Query)
    → IsAdv s.adv
    → contains k adv_keys ≡ true
    → lookup k (adv_from adv_keys (sync_query s q)) ≡ written (lookup k s.adv)
adv_from-sync_query k s q a known =
    ground (arith, lookup-adv_from k adv_keys (sync_query s q), sync_query-adv k s q a known, known)

sel_from-sync_query :
    (s : Snapshot) (q : Query)
    → IsAdv s.adv
    → (view_of (sync_query s q)).focus_id ≡ linkable s.focus_id
unfolding view_of
sel_from-sync_query s q a = elim (Option-cases s.focus_id) [
  | inl closed ↦ rw (closed) (ground (arith, sync_query-sel s q a, closed))
  | inr (n, open_) ↦ ground (arith, sync_query-sel s q a, open_, read_from-show n, show-ne-empty n)
]

-- The view that `syncUrl` writes is the view that a visit of the address opens: the filter, the sort key,
-- the focused torrent (0 is never written) and each attribute filter that is set; a filter or a sort
-- key that is empty does not come back.
pub view_of-sync_query :
    (s : Snapshot) (q : Query)
    → IsAdv s.adv
    → is_empty s.filter ≡ false
    → is_empty s.sort ≡ false
    → IsReopened s (view_of (sync_query s q))
unfolding view_of
view_of-sync_query s q a f g = record {
  filter = ground (arith, sync_query-filter s q a, text_eq_iff s.filter (codes "all"), f);
  sort = ground (arith, sync_query-sort s q a, text_eq_iff s.sort (codes "name"), g);
  focus_id = sel_from-sync_query s q a;
  adv = λ k known. adv_from-sync_query k s q a known;
}
