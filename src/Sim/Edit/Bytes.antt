-- ===== src/Sim/Edit/Bytes.antt =====
-- The bytes of a torrent through a verify that is stopped, and through unticking a file.
use mathlib.Core.Path.{ap₂}
use transmission_ui.Prelude.{
  ltb, Bool-cases, get_elem?, Text, ℕ, zero, suc, ◌≤◌, min, ◌≡◌, refl, sym, ap, ◌∙◌, inl, inr, true,
  false, none, some, List, [], ◌∷◌, arith,
}
use transmission_ui.Types.{whole, Session}
use transmission_ui.Types.Detail.{TorrentFile, FileStat, TorrentDetail}
use transmission_ui.Sim.Derive.{is_checking, sum_wanted, wanted_size, wanted_have, reconcile}
use transmission_ui.Sim.Derive.Totals.{IsBalanced}
use transmission_ui.Sim.Edit.{
  fold_back, stop, verify, mark_at, want, FileMarks, marked, retotal, set,
}

-- The torrent's bytes as its counts give them.
pub record SameBytes (t u : TorrentDetail) : Type 0 where
  pub same_valid : u.have_valid ≡ t.have_valid
  pub same_unchecked : u.have_unchecked ≡ t.have_unchecked
  pub same_left : u.left_until_done ≡ t.left_until_done

-- A verify that is stopped gives the bytes back, when none were unchecked before; a second verify during the
-- first forgets them, so that stopping leaves none.
pub stop-verify :
    (t : TorrentDetail)
    → t.metadata_percent_complete ≡ whole
    → IsBalanced t
    → t.have_unchecked ≡ 0
    → SameBytes t (stop (verify t)) × ((stop (verify (verify t))).have_valid ≡ 0)
unfolding stop verify fold_back is_checking reconcile
stop-verify t h b none_unchecked =
    let complete : ltb t.metadata_percent_complete whole ≡ false = ground arith in
    let sums = b.sums in
    (
      record {
        same_valid = rw complete (omega arith);
        same_unchecked = rw complete (omega arith);
        same_left = rw complete (omega arith);
      },
      rw complete (omega arith),
    )

mark_at-back :
    (i : ℕ) (ss : List FileStat) (s : FileStat)
    → get_elem? ss i ≡ some s
    → s.wanted ≡ true
    → mark_at (want true) i (mark_at (want false) i ss) ≡ ss
mark_at-back i [] s e w = refl
mark_at-back zero (r ∷ ss) s e w =
    let on : r.wanted ≡ true = ground arith in ap (λ b. want b r ∷ ss) (sym on)
mark_at-back (suc i) (r ∷ ss) s e w = ap (◌∷◌ r) (mark_at-back i ss s e w)

sum_wanted-le :
    (g h : TorrentFile → ℕ) (fs : List TorrentFile) (ss : List FileStat)
    → ((f : TorrentFile) → g f ≤ h f)
    → sum_wanted g fs ss ≤ sum_wanted h fs ss
sum_wanted-le g h [] ss le = omega arith
sum_wanted-le g h (f ∷ fs) [] le = omega (arith, sum_wanted-le g h fs [] le, le f)
sum_wanted-le g h (f ∷ fs) (s ∷ ss) le = ground (arith, sum_wanted-le g h fs ss le, le f)

abbrev no_marks : FileMarks
no_marks = record {
  files_wanted = [];
  files_unwanted = [];
  priority_high = [];
  priority_normal = [];
  priority_low = [];
}

abbrev pub untick : ℕ → FileMarks
untick i = record no_marks { files_unwanted = i ∷ [] }

abbrev pub tick : ℕ → FileMarks
tick i = record no_marks { files_wanted = i ∷ [] }

-- The totals that the file table gives.
abbrev HasTotals : TorrentDetail → TorrentDetail → Type 0
HasTotals t u = (u.size_when_done ≡ wanted_size t) × (u.have_valid ≡ wanted_have t)

retotal-HasTotals : (s : Session) (t : TorrentDetail) → HasTotals t (retotal s t)
unfolding retotal reconcile wanted_size wanted_have
retotal-HasTotals s t =
    let le =
      sum_wanted-le (λ f. min f.bytes_completed f.length) (λ f. f.length) t.files t.file_stats
        (λ f. omega arith) in
    elim (Bool-cases (ltb t.metadata_percent_complete whole)) [
      | inl early ↦ rw (early, retotal) (refl, refl)
      | inr complete ↦ rw (complete, retotal) (refl, omega (arith, le))
    ]

wanted-table :
    (t v : TorrentDetail)
    → v.files ≡ t.files
    → v.file_stats ≡ t.file_stats
    → (wanted_size v ≡ wanted_size t) × (wanted_have v ≡ wanted_have t)
unfolding wanted_size wanted_have
wanted-table t v files stats = (
  ap₂ (sum_wanted (λ f. f.length)) files stats,
  ap₂ (sum_wanted (λ f. min f.bytes_completed f.length)) files stats,
)

module _ (encode : Text → Text) (host_of : Text → Text) (s : Session) where
  abbrev pub mark : FileMarks → TorrentDetail → TorrentDetail
  mark m t = set encode host_of s m (λ u. u) none t

  set-table :
      (m : FileMarks) (t : TorrentDetail)
      → ((mark m t).files ≡ t.files) × ((mark m t).file_stats ≡ marked m t.file_stats)
  unfolding set retotal reconcile
  set-table m t = elim (Bool-cases (ltb t.metadata_percent_complete whole)) [
    | inl early ↦ rw (early, set, retotal) (refl, refl)
    | inr complete ↦ rw (complete, set, retotal) (refl, refl)
  ]

  ticked-stats :
      (i : ℕ) (t : TorrentDetail) (f : FileStat)
      → get_elem? t.file_stats i ≡ some f
      → f.wanted ≡ true
      → marked (tick i) (mark (untick i) t).file_stats ≡ t.file_stats
  unfolding marked
  ticked-stats i t f e w =
      ap (mark_at (want true) i) (set-table (untick i) t).1 ∙ mark_at-back i t.file_stats f e w

  -- Unticking a wanted file and ticking it again gives back the file table, the size and the bytes had, where the
  -- size and the bytes had were those of the file table.
  pub set-untick :
      (i : ℕ) (t : TorrentDetail) (f : FileStat)
      → get_elem? t.file_stats i ≡ some f
      → f.wanted ≡ true
      → t.size_when_done ≡ wanted_size t
      → t.have_valid ≡ wanted_have t
      → (let u = mark (tick i) (mark (untick i) t) in
          (u.files ≡ t.files)
          × (u.file_stats ≡ t.file_stats)
          × (u.size_when_done ≡ t.size_when_done)
          × (u.have_valid ≡ t.have_valid))
  unfolding set
  set-untick i t f e w sized had =
      let t1 = mark (untick i) t in
      let stats = ticked-stats i t f e w in
      let (files1, stats1) = set-table (untick i) t in
      let (files2, stats2) = set-table (tick i) t1 in
      let v = record t1 { file_stats = marked (tick i) t1.file_stats } in
      let (size, valid) = retotal-HasTotals s v in
      let (size_eq, valid_eq) = wanted-table t v files1 stats in
      (files2 ∙ files1, stats2 ∙ stats, size ∙ (size_eq ∙ sym sized), valid ∙ (valid_eq ∙ sym had))
