-- ===== src/Store/Removal/Batch.antt =====
-- Which torrents a bulk removal asks for, and in which order.
use transmission_ui.Prelude.{
  ℕ, ◌≡◌, sym, ◌∙◌, append-nil, inl, inr, List, [], ◌++◌, arith, ◌==◌, ==_iff, Bool-cases, keep,
  length,
}
use transmission_ui.Prelude.Keyed.{nat_eq, contains, add_all, Nodup}
use transmission_ui.Prelude.Sets.{
  contains-append, contains-keep, contains-add_all, add_all-Nodup, keep-Nodup, IsIncluded,
  IsIncluded-of_length, add_all-prefix, add_all-append, add_all_distinct,
}
use transmission_ui.Store.Removal.{batch_of}

wanted-IsIncluded : (shown ids : List ℕ) → IsIncluded (keep (λ i. contains i ids) shown) ids
wanted-IsIncluded shown ids k h = ground (arith, contains-keep k (λ i. contains i ids) shown)

exact_members :
    (shown ids : List ℕ) (i : ℕ)
    → Nodup (keep (λ j. contains j ids) shown)
    → length (keep (λ j. contains j ids) shown) ≡ length ids
    → contains i (keep (λ j. contains j ids) shown) ≡ contains i ids
exact_members shown ids i d same = ground (
  arith,
  wanted-IsIncluded shown ids i,
  IsIncluded-of_length (keep (λ j. contains j ids) shown) ids d (wanted-IsIncluded shown ids) same
      i,
)

all_members :
    (shown ids : List ℕ) (i : ℕ)
    → contains i (add_all [] (keep (λ j. contains j ids) shown ++ ids)) ≡ contains i ids
all_members shown ids i =
    let order = keep (λ j. contains j ids) shown in
    ground (
      arith,
      contains-add_all i [] (order ++ ids),
      contains-append i order ids,
      wanted-IsIncluded shown ids i,
    )

first_shown :
    (order ids : List ℕ)
    → Nodup order
    → (rest : List ℕ) × (add_all [] (order ++ ids) ≡ order ++ rest)
first_shown order ids d =
    let (rest, h) = add_all-prefix order ids in
    (rest, add_all-append [] order ids ∙ (rw (add_all_distinct order d) h))

-- The batch of a removal holds exactly the torrents that were asked for, each once, and begins with
-- those that the list shows, in the list's order, provided that the list shows no torrent twice.
pub batch_of_lem :
    (shown ids : List ℕ)
    → Nodup shown
    → Nodup (batch_of shown ids)
      × ((i : ℕ) → contains i (batch_of shown ids) ≡ contains i ids)
      × ((rest : List ℕ) × (batch_of shown ids ≡ keep (λ i. contains i ids) shown ++ rest))
unfolding batch_of
batch_of_lem shown ids d =
    let order = keep (λ i. contains i ids) shown in
    let distinct = keep-Nodup (λ i. contains i ids) shown d in
    elim (Bool-cases (length order == length ids)) [
      | inl same ↦ rw same (
        distinct,
        λ i. exact_members shown ids i distinct ((==_iff _ _).0 same),
        ([], sym (append-nil _)),
      )
      | inr less ↦ rw less (
        add_all-Nodup [] (order ++ ids) tt,
        λ i. all_members shown ids i,
        first_shown order ids distinct,
      )
    ]
