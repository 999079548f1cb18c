-- ===== src/Rows/Box.antt =====
-- The box in the header of the list, and the click on it.
use transmission_ui.Prelude.{
  ◌==◌, if◌then◌else◌, ==_iff, ==_refl, Bool-cases, length, all, ℕ, ◌≡◌, refl, ◌≢◌, ◌↔◌, inl, inr,
  Bool, true, false, ◌&&◌, List, [], ◌∷◌, arith,
}
use transmission_ui.Prelude.Keyed.{nat_eq, text_eq_inst, contains, Nodup}
use transmission_ui.Prelude.Sets.{
  contains-keep, keep-Nodup, IsIncluded, length-le_of_included, IsIncluded-of_length,
  add_all_distinct,
}
use transmission_ui.Store.{World}
use transmission_ui.Store.Actions.{is_nonempty, select_all_visible}
use transmission_ui.Rows.{sel_ids, BoxState, on, some_on, off, box_of}

-- What a click on the box makes of it.
abbrev pub clicked : Bool → BoxState → BoxState
clicked has_rows on = off
clicked has_rows _ = if has_rows then on else off

abbrev pub is_on : BoxState → Bool
is_on on = true
is_on _ = false

is_on_part : (b : BoxState) → b ≢ on → is_on b ≡ false
is_on_part on h = absurd (h refl)
is_on_part some_on h = refl
is_on_part off h = refl

every_in : (ids sel : List ℕ) → all (λ k. contains k sel) ids ≡ true → IsIncluded ids sel
every_in [] sel h k m = absurd (ground (arith, m))
every_in (i ∷ ids) sel h k m = elim (Bool-cases (i == k)) [
  | inl here ↦ rw (← (==_iff i k).0 here) (ground (arith, h))
  | inr later ↦ every_in ids sel (ground (arith, h)) k (ground (arith, m, later))
]

in_every : (ids sel : List ℕ) → IsIncluded ids sel → all (λ k. contains k sel) ids ≡ true
in_every [] sel h = refl
in_every (i ∷ ids) sel h =
    let here : contains i sel ≡ true = h i (ground (arith, ==_refl i)) in
    ground (arith, here, in_every ids sel (λ k m. h k (ground (arith, m))))

-- The shown ones among the selected are as many as the rows just when every row is selected.
pub counts_all :
    (ids sel : List ℕ)
    → Nodup ids
    → Nodup sel
    → (length (sel_ids ids sel) == length ids) ≡ all (λ k. contains k sel) ids
counts_all ids sel d e = elim (Bool-cases (all (λ k. contains k sel) ids)) [
  | inl full ↦
      let inside : IsIncluded ids (sel_ids ids sel) = λ k m.
        ground (arith, contains-keep k (λ k. contains k ids) sel, m, every_in ids sel full k m) in
      let most = length-le_of_included ids (sel_ids ids sel) d inside in
      let least =
        length-le_of_included (sel_ids ids sel) ids (keep-Nodup (λ k. contains k ids) sel e)
          shown in
      ground (arith, full, most, least)
  | inr part ↦ elim (Bool-cases (length (sel_ids ids sel) == length ids)) [
    | inr fewer ↦ ground (arith, part, fewer)
    | inl equal ↦
        let back =
          IsIncluded-of_length (sel_ids ids sel) ids (keep-Nodup (λ k. contains k ids) sel e) shown
            ((==_iff _ _).0 equal) in
        let full =
          in_every ids sel
            (λ k m. ground (arith, back k m, contains-keep k (λ k. contains k ids) sel)) in
        absurd (ground (arith, full, part))
  ]
]
  where
    shown : IsIncluded (sel_ids ids sel) ids
    shown k m = ground (arith, contains-keep k (λ k. contains k ids) sel, m)

box_of-nothing : (ids : List ℕ) → box_of ids [] ≡ off
unfolding box_of
box_of-nothing ids = ground arith

box_of-itself : (ids : List ℕ) → Nodup ids → box_of ids ids ≡ (if is_nonempty ids then on else off)
unfolding box_of
box_of-itself [] d = refl
box_of-itself (i ∷ ids) d =
    ground (arith, counts_all (i ∷ ids) (i ∷ ids) d d, in_every (i ∷ ids) (i ∷ ids) (λ k m. m))

-- Every row is selected, and there are rows.
abbrev pub is_full : List ℕ → List ℕ → Bool
is_full ids sel = is_nonempty ids && all (λ k. contains k sel) ids

box_of-full :
    (ids sel : List ℕ) → Nodup ids → Nodup sel → is_full ids sel ≡ true → box_of ids sel ≡ on
unfolding box_of
box_of-full [] sel d e h = ground arith
box_of-full (i ∷ ids) sel d e h = ground (arith, counts_all (i ∷ ids) sel d e, h)

box_of-part :
    (ids sel : List ℕ) → Nodup ids → Nodup sel → is_full ids sel ≡ false → box_of ids sel ≢ on
unfolding box_of
box_of-part [] sel d e h at_on = ground arith
box_of-part (i ∷ ids) sel d e h at_on = ground (arith, counts_all (i ∷ ids) sel d e, h)

clicked_part :
    (has_rows : Bool) (b : BoxState) → b ≢ on → clicked has_rows b ≡ (if has_rows then on else off)
clicked_part has_rows on h = absurd (h refl)
clicked_part has_rows some_on h = refl
clicked_part has_rows off h = refl

-- The box is on just when there are rows and every one of them is selected. A click on it toggles it: with the
-- box on it clears the whole selection, hidden rows included, and else it selects the rows and nothing else. The
-- rows' ids and those selected are distinct.
pub box_of-select_all_visible :
    (w : World)
    → Nodup w.view_order
    → Nodup w.snap.selected
    → ((box_of w.view_order w.snap.selected ≡ on) ↔ (is_full w.view_order w.snap.selected ≡ true))
      × ((select_all_visible w).snap.selected
          ≡ (if is_on (box_of w.view_order w.snap.selected) then [] else w.view_order))
      × (box_of w.view_order (select_all_visible w).snap.selected
          ≡ clicked (is_nonempty w.view_order) (box_of w.view_order w.snap.selected))
unfolding select_all_visible
box_of-select_all_visible w d e =
    let ids = w.view_order in
    let chosen = w.snap.selected in
    elim (Bool-cases (is_full ids chosen)) [
      | inl full ↦
          let at_on = box_of-full ids chosen d e full in
          (
            ((λ q. full), (λ q. at_on)),
            rw (full, at_on) refl,
            rw (full, at_on) (box_of-nothing ids),
          )
      | inr part ↦
          let not_on = box_of-part ids chosen d e part in
          (
            ((λ q. absurd (not_on q)), (λ q. absurd (ground (arith, part, q)))),
            rw (part, is_on_part (box_of ids chosen) not_on) (add_all_distinct ids d),
            rw
                (
                  part,
                  add_all_distinct ids d,
                  clicked_part (is_nonempty ids) (box_of ids chosen) not_on,
                )
                (box_of-itself ids d),
          )
    ]
