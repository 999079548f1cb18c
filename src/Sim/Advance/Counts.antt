-- ===== src/Sim/Advance/Counts.antt =====
-- The counts of a torrent's bytes through the parts of a step.
use transmission_ui.Prelude.{
  ltb, leb, Bool-cases, ℕ, ◌+◌, ◌-◌, ◌≤◌, min, ◌≡◌, refl, ◌∙◌, inl, inr, false, arith,
}
use transmission_ui.Types.{whole, Status, check}
use transmission_ui.Types.Detail.{TorrentDetail}
use transmission_ui.Sim.{SimFields}
use transmission_ui.Sim.Derive.{is_checking, reconcile}
use transmission_ui.Sim.Advance.{Amounts, verified, check_on, gain_bytes, count_on}
use transmission_ui.Sim.Rates.{Speeds}

-- The metadata is there, the counts add up, and bytes are unchecked only while the torrent is verified.
pub record IsSound (t : TorrentDetail) : Type 0 where
  pub known : t.metadata_percent_complete ≡ whole
  pub sums : t.have_valid + t.have_unchecked + t.left_until_done ≡ t.size_when_done
  pub settled : is_checking t.status ≡ false → t.have_unchecked ≡ 0

-- The bytes on disk.
abbrev pub on_disk : TorrentDetail → ℕ
on_disk t = t.have_valid + t.have_unchecked

-- An account of that size that is kept, with at least these bytes on disk.
pub record IsKept (size disk : ℕ) (u : TorrentDetail) : Type 0 where
  pub sound : IsSound u
  pub same_size : u.size_when_done ≡ size
  pub grows : disk ≤ on_disk u

-- A change that keeps the account and loses no bytes.
abbrev pub Keeps : TorrentDetail → TorrentDetail → Type 0
Keeps t u = IsKept t.size_when_done (on_disk t) u

-- What reconcile makes of counts whose bytes on disk do not exceed the size.
pub reconcile-fields :
    (t : TorrentDetail)
    → t.metadata_percent_complete ≡ whole
    → (let u = reconcile t in
        (u.have_valid ≡ min t.size_when_done t.have_valid)
        × (u.have_unchecked
            ≡ min (t.size_when_done - min t.size_when_done t.have_valid) t.have_unchecked)
        × (u.left_until_done ≡ t.size_when_done - u.have_valid - u.have_unchecked)
        × (u.size_when_done ≡ t.size_when_done)
        × (u.status ≡ t.status)
        × (u.metadata_percent_complete ≡ whole))
unfolding reconcile
reconcile-fields t h =
    let on : ltb t.metadata_percent_complete whole ≡ false = ground arith in
    rw (on, reconcile) (refl, refl, refl, refl, refl, h)

pub verified-Keeps : (prev : Status) (t : TorrentDetail) → IsSound t → Keeps t (verified prev t)
unfolding verified
verified-Keeps prev t s =
    let before : TorrentDetail = record t {
      recheck_progress = 0;
      have_valid = t.have_valid + t.have_unchecked;
      have_unchecked = 0;
    } in
    let (valid, unchecked, left, size, status, known) = reconcile-fields before s.known in
    let sums = s.sums in
    record {
      sound = record {
        known = known;
        sums = omega (arith, valid, unchecked, left, size, sums);
        settled = λ e. omega (arith, unchecked);
      };
      same_size = size;
      grows = omega (arith, valid, unchecked, sums);
    }

pub check_on-Keeps :
    (part : ℕ) (f : SimFields) (t : TorrentDetail)
    → IsSound t
    → t.status ≡ check
    → Keeps t (check_on part f t)
unfolding check_on is_checking
check_on-Keeps part f t s e =
    let u : TorrentDetail = record t {
      recheck_progress = min whole (t.recheck_progress + part);
      rate_download = 0;
      rate_upload = 0;
    } in
    let on : IsSound u = record { known = s.known; sums = s.sums; settled = s.settled } in
    elim (Bool-cases (leb whole u.recheck_progress)) [
      | inl over ↦
          rw (over, check_on)
            (let v = verified-Keeps f.prev_status u on in
              record { sound = v.sound; same_size = v.same_size; grows = v.grows })
      | inr goes_on ↦
          rw (goes_on, check_on) (record { sound = on; same_size = refl; grows = omega arith })
    ]

-- A torrent that is not verified: its counts add up, and none of its bytes is unchecked.
pub record IsPlain (size disk : ℕ) (t : TorrentDetail) : Type 0 where
  pub known : t.metadata_percent_complete ≡ whole
  pub sums : t.have_valid + t.left_until_done ≡ t.size_when_done
  pub none_unchecked : t.have_unchecked ≡ 0
  pub same_size : t.size_when_done ≡ size
  pub grown : disk ≤ t.have_valid

pub IsPlain-IsKept : {size disk : ℕ} (u : TorrentDetail) → IsPlain size disk u → IsKept size disk u
IsPlain-IsKept u p =
    let sums = p.sums in
    let unchecked = p.none_unchecked in
    record {
      sound = record {
        known = p.known;
        sums = omega (arith, sums, unchecked);
        settled = λ _. unchecked;
      };
      same_size = p.same_size;
      grows = omega (arith, p.grown, unchecked);
    }

pub count_on-IsPlain :
    (want : Speeds) (dt : Amounts) (t : TorrentDetail)
    → t.metadata_percent_complete ≡ whole
    → t.have_unchecked ≡ 0
    → t.have_valid ≤ t.size_when_done
    → IsPlain t.size_when_done t.have_valid (count_on want dt t)
unfolding count_on
count_on-IsPlain want dt t h clear le =
    let before : TorrentDetail = record t { uploaded_ever = t.uploaded_ever + dt.up_bytes } in
    let (valid, unchecked, left, size, status, known) = reconcile-fields before h in
    record {
      known = known;
      sums = omega (arith, valid, unchecked, left, size, clear, le);
      none_unchecked = omega (arith, unchecked, clear);
      same_size = size;
      grown = omega (arith, valid, le);
    }

-- The bytes that arrive fit.
pub record IsGained (t u : TorrentDetail) : Type 0 where
  pub known : u.metadata_percent_complete ≡ t.metadata_percent_complete
  pub unchecked : u.have_unchecked ≡ t.have_unchecked
  pub size : u.size_when_done ≡ t.size_when_done
  pub grown : t.have_valid ≤ u.have_valid
  pub fits : u.have_valid ≤ t.have_valid + t.left_until_done

pub gain_bytes-IsGained :
    (bytes : ℕ) (t : TorrentDetail) (f : SimFields) → IsGained t (gain_bytes bytes (t, f)).0
unfolding gain_bytes
gain_bytes-IsGained bytes t f = elim (Bool-cases (ltb 0 (min bytes t.left_until_done))) [
  | inl some_bytes ↦
      rw (some_bytes, gain_bytes)
        (record {
          known = refl;
          unchecked = refl;
          size = refl;
          grown = omega arith;
          fits = omega arith;
        })
  | inr no_bytes ↦
      rw (no_bytes, gain_bytes)
        (record {
          known = refl;
          unchecked = refl;
          size = refl;
          grown = omega arith;
          fits = omega arith;
        })
]

pub counted-IsPlain :
    (size disk : ℕ) (want : Speeds) (dt : Amounts) (t : TorrentDetail) (f : SimFields)
    → IsPlain size disk t
    → IsPlain size disk (count_on want dt (gain_bytes dt.down_bytes (t, f)).0)
counted-IsPlain size disk want dt t f p =
    let u = (gain_bytes dt.down_bytes (t, f)).0 in
    let g = gain_bytes-IsGained dt.down_bytes t f in
    let q =
      count_on-IsPlain want dt u (g.known ∙ p.known) (g.unchecked ∙ p.none_unchecked)
        (omega (arith, g.fits, g.size, p.sums)) in
    record {
      known = q.known;
      sums = q.sums;
      none_unchecked = q.none_unchecked;
      same_size = q.same_size ∙ (g.size ∙ p.same_size);
      grown = omega (arith, q.grown, g.grown, p.grown);
    }
