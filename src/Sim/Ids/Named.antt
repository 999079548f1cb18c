-- ===== src/Sim/Ids/Named.antt =====
-- Which torrents the ids of a request select.
use transmission_ui.Prelude.{
  ◌==◌, ==_iff, ==_refl, Bool-cases, All, Text, codes, text_eq, text_eq_refl, text_eq_iff, ℕ, ◌≡◌,
  refl, sym, subst, ◌∙◌, inl, inr, Bool, true, false, ◌||◌, Option, none, some, List, [], ◌∷◌, ◌++◌,
  map, arith,
}
use transmission_ui.Prelude.Int.{ℤ}
use transmission_ui.Prelude.Keyed.{nat_eq, text_eq_inst, contains, Nodup}
use transmission_ui.Json.{Json, null, bool, num, str, arr, obj, Items, nil, cons}
use transmission_ui.Trackers.{lower}
use transmission_ui.Types.Detail.{TorrentDetail}
use transmission_ui.Sim.Queue.{ids}
use transmission_ui.Sim.Ids.{
  these, with_hash, id_of, one_id, each_id, normalize_ids, is_int, names_id, is_selected,
}

-- Whether a value names a torrent: its id, or its hash in any case.
abbrev pub one_named : Json → TorrentDetail → Bool
one_named (num n) t = is_int t.id n
one_named (str s) t = text_eq t.hash_string (lower s)
one_named _ t = false

abbrev pub each_named : Items → TorrentDetail → Bool
each_named nil t = false
each_named (cons j js) t = one_named j t || each_named js t

abbrev pub is_named : Json → TorrentDetail → Bool
is_named (arr js) t = each_named js t
is_named j t = one_named j t

-- What does not stand for all the torrents.
abbrev pub IsGiven : Json → Type 0
IsGiven null = ⊥
IsGiven (str s) = text_eq s (codes "recently_active") ≡ false
IsGiven _ = Unit

abbrev pub hashes : List TorrentDetail → List Text
hashes ts = map (λ t. t.hash_string) ts

All-members :
    (P : TorrentDetail → Type 0) (ts : List TorrentDetail)
    → ((t : TorrentDetail)
        → contains t.id (ids ts) ≡ true
        → contains t.hash_string (hashes ts) ≡ true
        → P t)
    → All P ts
All-members P [] h = tt
All-members P (t ∷ ts) h = (
  h t (ground (arith, ==_refl t.id)) (ground (arith, text_eq_refl t.hash_string)),
  All-members P ts (λ u a b. h u (ground (arith, a)) (ground (arith, b))),
)

with_hash-contains :
    (h : Text) (ts : List TorrentDetail) (u : TorrentDetail)
    → with_hash h ts ≡ some u
    → contains u.id (ids ts) ≡ true
with_hash-contains h [] u e = ground arith
with_hash-contains h (t ∷ ts) u e = elim (Bool-cases (text_eq t.hash_string h)) [
  | inl here ↦ ground (arith, here, e, ==_refl u.id)
  | inr later ↦ ground (arith, later, e, with_hash-contains h ts u)
]

names-append : (xs ys : List ℤ) (k : ℕ) → names_id (xs ++ ys) k ≡ (names_id xs k || names_id ys k)
names-append [] ys k = refl
names-append (x ∷ xs) ys k = ground (arith, names-append xs ys k)

-- The ids that a hash stands for, in a list whose ids and hashes are distinct.
names-hash :
    (h : Text) (o : Option TorrentDetail) (ts : List TorrentDetail)
    → o ≡ with_hash h ts
    → Nodup (ids ts)
    → Nodup (hashes ts)
    → All (λ t. names_id (id_of o) t.id ≡ text_eq t.hash_string h) ts
names-hash h o [] e d g = tt
names-hash h o (t ∷ ts) e d g = elim (Bool-cases (text_eq t.hash_string h)) [
  | inl here ↦
      subst (λ o. All (λ u. names_id (id_of o) u.id ≡ text_eq u.hash_string h) (t ∷ ts))
        (sym (e ∙ found here))
        (
          ground (arith, here, ==_refl t.id),
          All-members _ ts (only_first ((text_eq_iff t.hash_string h).0 here)),
        )
  | inr later ↦
      (rw later (absent o (e ∙ passed later)), names-hash h o ts (e ∙ passed later) d.1 g.1)
]
  where
    found : text_eq t.hash_string h ≡ true → with_hash h (t ∷ ts) ≡ some t
    found here = rw here refl

    passed : text_eq t.hash_string h ≡ false → with_hash h (t ∷ ts) ≡ with_hash h ts
    passed later = rw later refl

    only_first :
        t.hash_string ≡ h
        → (u : TorrentDetail) → contains u.id (ids ts) ≡ true
        → contains u.hash_string (hashes ts) ≡ true
        → names_id (id_of (some t)) u.id ≡ text_eq u.hash_string h
    only_first e u a b =
        let apart_ids : (t.id == u.id) ≡ false = ground (arith, a, d.0, ==_iff t.id u.id) in
        let apart : text_eq u.hash_string h ≡ false =
          ground (arith, b, g.0, e, text_eq_iff u.hash_string h) in
        rw (apart_ids, apart) refl

    absent : (o : Option TorrentDetail) → o ≡ with_hash h ts → names_id (id_of o) t.id ≡ false
    absent none e = refl
    absent (some u) e = ground (arith, with_hash-contains h ts u (sym e), d.0, ==_iff u.id t.id)

All-names :
    (xs : List ℤ) (P : TorrentDetail → Bool) (ys : List ℤ) (Q : TorrentDetail → Bool)
    (ts : List TorrentDetail)
    → All (λ t. names_id xs t.id ≡ P t) ts
    → All (λ t. names_id ys t.id ≡ Q t) ts
    → All (λ t. names_id (xs ++ ys) t.id ≡ (P t || Q t)) ts
All-names xs P ys Q [] h k = tt
All-names xs P ys Q (t ∷ ts) (p, h) (q, k) =
    (rw (names-append xs ys t.id, p, q) refl, All-names xs P ys Q ts h k)

All-same :
    (P Q : TorrentDetail → Bool) (ts : List TorrentDetail)
    → ((t : TorrentDetail) → P t ≡ Q t)
    → All (λ t. P t ≡ Q t) ts
All-same P Q [] h = tt
All-same P Q (t ∷ ts) h = (h t, All-same P Q ts h)

module _ (ts : List TorrentDetail) (d : Nodup (ids ts)) (g : Nodup (hashes ts)) where
  one_id-named : (j : Json) → All (λ t. names_id (one_id ts j) t.id ≡ one_named j t) ts
  unfolding one_id
  one_id-named (num n) = All-same _ _ ts (λ t. ground arith)
  one_id-named (str s) = names-hash (lower s) (with_hash (lower s) ts) ts refl d g
  one_id-named null = All-same _ _ ts (λ t. refl)
  one_id-named (bool b) = All-same _ _ ts (λ t. refl)
  one_id-named (arr js) = All-same _ _ ts (λ t. refl)
  one_id-named (obj fs) = All-same _ _ ts (λ t. refl)

  each_id-named : (js : Items) → All (λ t. names_id (each_id ts js) t.id ≡ each_named js t) ts
  unfolding each_id
  each_id-named nil = All-same _ _ ts (λ t. refl)
  each_id-named (cons j js) =
      All-names (one_id ts j) (one_named j) (each_id ts js) (each_named js) ts (one_id-named j)
        (each_id-named js)

  -- Ids that are given, and are not "recently_active", select just the torrents that they name.
  pub normalize_ids-named :
      (j : Json)
      → IsGiven j
      → All (λ t. is_selected (normalize_ids ts (some j)) t ≡ is_named j t) ts
  unfolding normalize_ids is_selected
  normalize_ids-named null h = absurd h
  normalize_ids-named (num n) h = one_id-named (num n)
  normalize_ids-named (bool b) h = one_id-named (bool b)
  normalize_ids-named (obj fs) h = one_id-named (obj fs)
  normalize_ids-named (arr js) h = each_id-named js
  normalize_ids-named (str s) h =
      let listed : normalize_ids ts (some (str s)) ≡ some (these (one_id ts (str s))) = rw h refl in
      subst (λ o. All (λ t. is_selected o t ≡ is_named (str s) t) ts) (sym listed)
        (one_id-named (str s))
