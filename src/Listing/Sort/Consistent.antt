-- ===== src/Listing/Sort/Consistent.antt =====
-- The list's comparators order the rows.
use transmission_ui.Prelude.{
  if◌then◌else◌, Text, is_empty, ℕ, ◌≡◌, refl, sym, ap, subst, ◌∙◌, Bool, true, arith,
}
use transmission_ui.Prelude.Comparison.{
  Sign, flip, or_sign, minus, directed, leads, IsConsistent, or_sign-IsConsistent,
  directed-IsConsistent, minus-IsConsistent,
}
use transmission_ui.Paths.{rel_dir}
use transmission_ui.Types.{TorrentSummary}
use transmission_ui.Listing.Status.{rank, Swarm, swarm_of}
use transmission_ui.Listing.Sort.{
  SortKey, Ratio, finite, infinite, ratio_value, ratio_minus, eta_value, names, num, text,
  first_tracker_name, sort_fn,
}
use transmission_ui.Listing.Sort.{
  by_state, by_name, by_size, by_progress, by_down, by_up, by_ratio, by_eta, by_added, by_activity,
  by_seeds, by_uploaded, by_tracker, by_path,
}

-- 1 for what is missing.
abbrev missing : Text → ℕ
missing s = if is_empty s then 1 else 0

ratio_swaps : (x y : Ratio) → ratio_minus y x ≡ flip (ratio_minus x y)
ratio_swaps (finite a) (finite b) = ground arith
ratio_swaps (finite a) infinite = refl
ratio_swaps infinite (finite b) = refl
ratio_swaps infinite infinite = refl

ratio_chains :
    (x y z : Ratio)
    → leads (ratio_minus x y) ≡ true
    → leads (ratio_minus y z) ≡ true
    → leads (ratio_minus x z) ≡ true
ratio_chains (finite a) (finite b) (finite c) h k = ground arith
ratio_chains (finite a) y infinite h k = refl
ratio_chains infinite y infinite h k = refl
ratio_chains infinite (finite b) (finite c) h k = ground arith
ratio_chains infinite infinite (finite c) h k = ground arith
ratio_chains (finite a) infinite (finite c) h k = ground arith

module _ (collate : Text → Text → Sign) (lawful : IsConsistent collate) where
  of_field :
      (f : TorrentSummary → Text)
      → IsConsistent (λ (a : TorrentSummary) (b : TorrentSummary). collate (f a) (f b))
  of_field f = record {
    swaps = λ a b. lawful.swaps (f a) (f b);
    chains = λ a b d. lawful.chains (f a) (f b) (f d);
  }

  names-IsConsistent : IsConsistent (names collate)
  names-IsConsistent = of_field (λ t. TorrentSummary.name t)

  num-IsConsistent : (up : Bool) (f : TorrentSummary → ℕ) → IsConsistent (num collate up f)
  num-IsConsistent up f =
      or_sign-IsConsistent _ (names collate) (directed-IsConsistent up _ (minus-IsConsistent f))
        names-IsConsistent

  -- A missing text goes last; the others as the collation says.
  text-split :
      (up : Bool) (f : TorrentSummary → Text) (a b : TorrentSummary)
      → text collate up f a b
        ≡ or_sign
            (minus (missing (f a)) (missing (f b)))
            (or_sign (directed up (collate (f a) (f b))) (names collate a b))
  text-split up f a b = ground arith

  text-IsConsistent : (up : Bool) (f : TorrentSummary → Text) → IsConsistent (text collate up f)
  text-IsConsistent up f =
      let split : IsConsistent (λ (a : TorrentSummary) (b : TorrentSummary).
        or_sign (minus (missing (f a)) (missing (f b)))
          (or_sign (directed up (collate (f a) (f b))) (names collate a b))) =
        or_sign-IsConsistent _ _ (minus-IsConsistent (λ t. missing (f t)))
          (or_sign-IsConsistent _ _ (directed-IsConsistent up _ (of_field f)) names-IsConsistent) in
      record {
        swaps = λ a b. text-split up f b a ∙ split.swaps a b ∙ ap flip (sym (text-split up f a b));
        chains = λ a b d h k.
            subst (λ (x : Sign). leads x ≡ true) (sym (text-split up f a d))
              (split.chains a b d (subst (λ (x : Sign). leads x ≡ true) (text-split up f a b) h)
                (subst (λ (x : Sign). leads x ≡ true) (text-split up f b d) k));
      }

  ratio-IsConsistent : IsConsistent (λ (a : TorrentSummary) (b : TorrentSummary).
      ratio_minus (ratio_value a.upload_ratio) (ratio_value b.upload_ratio))
  ratio-IsConsistent = record {
    swaps = λ a b. ratio_swaps (ratio_value a.upload_ratio) (ratio_value b.upload_ratio);
    chains = λ a b d.
        ratio_chains (ratio_value a.upload_ratio) (ratio_value b.upload_ratio)
          (ratio_value d.upload_ratio);
  }

  -- The later activity first.
  latest-IsConsistent :
      IsConsistent
        (λ (a : TorrentSummary) (b : TorrentSummary). minus b.activity_date a.activity_date)
  latest-IsConsistent = record { swaps = λ a b. ground arith; chains = λ a b d h k. ground arith }

  -- For each sort key, direction and base the comparator of the list orders the rows: swapping two rows
  -- flips it and it is transitive, so that `sort` has a defined result, provided that the collation of
  -- texts does so.
  pub sort_fn-IsConsistent :
      (host_of : Text → Text) (key : SortKey) (up : Bool) (base : Text)
      → IsConsistent (sort_fn host_of collate key up base)
  unfolding sort_fn
  sort_fn-IsConsistent host_of by_name up base = directed-IsConsistent up _ names-IsConsistent
  sort_fn-IsConsistent host_of by_ratio up base =
      or_sign-IsConsistent _ _ (directed-IsConsistent up _ ratio-IsConsistent) names-IsConsistent
  sort_fn-IsConsistent host_of by_state up base =
      or_sign-IsConsistent _ _ (directed-IsConsistent up _ (minus-IsConsistent rank))
        (or_sign-IsConsistent _ _ latest-IsConsistent names-IsConsistent)
  sort_fn-IsConsistent host_of by_tracker up base =
      text-IsConsistent up (first_tracker_name host_of)
  sort_fn-IsConsistent host_of by_path up base =
      text-IsConsistent up (λ t. rel_dir (TorrentSummary.download_dir t) base)
  sort_fn-IsConsistent host_of by_size up base =
      num-IsConsistent up (λ t. TorrentSummary.size_when_done t)
  sort_fn-IsConsistent host_of by_progress up base =
      num-IsConsistent up (λ t. TorrentSummary.percent_done t)
  sort_fn-IsConsistent host_of by_down up base =
      num-IsConsistent up (λ t. TorrentSummary.rate_download t)
  sort_fn-IsConsistent host_of by_up up base =
      num-IsConsistent up (λ t. TorrentSummary.rate_upload t)
  sort_fn-IsConsistent host_of by_eta up base =
      num-IsConsistent up (λ t. eta_value (TorrentSummary.eta t))
  sort_fn-IsConsistent host_of by_added up base =
      num-IsConsistent up (λ t. TorrentSummary.added_date t)
  sort_fn-IsConsistent host_of by_activity up base =
      num-IsConsistent up (λ t. TorrentSummary.activity_date t)
  sort_fn-IsConsistent host_of by_seeds up base =
      num-IsConsistent up (λ t. Swarm.seeds (swarm_of t))
  sort_fn-IsConsistent host_of by_uploaded up base =
      num-IsConsistent up (λ t. TorrentSummary.uploaded_ever t)
