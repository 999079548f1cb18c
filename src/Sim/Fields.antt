-- ===== src/Sim/Fields.antt =====
-- `simFieldsFor` of ui/sim/state.ts, but for the phase, whose draw it takes. The average is rounded down.
use Prim.Native.Nat.{bit_xor}
use transmission_ui.Prelude.{leb, if◌then◌else◌, or_else, length, ℕ, ◌+◌, ◌/◌, max, List, [], ◌∷◌}
use transmission_ui.Prelude.Int.{ℤ, pos, negsuc}
use transmission_ui.Prelude.Keyed.{nat_eq, text_eq_inst, lookup}
use transmission_ui.Types.{whole}
use transmission_ui.Types.{download, seed}
use transmission_ui.Types.Detail.{TorrentDetail}
use transmission_ui.Sim.{SimFields}
use transmission_ui.Sim.Rand.{next, seed_of}

abbrev owned_copies : List ℤ → List ℕ
owned_copies [] = []
owned_copies (pos n ∷ vs) = n ∷ owned_copies vs
owned_copies (negsuc n ∷ vs) = owned_copies vs

abbrev total : List ℕ → ℕ
total [] = 0
total (n ∷ ns) = n + total ns

abbrev average : List ℕ → ℕ
average [] = 3
average (n ∷ ns) = total (n ∷ ns) / length (n ∷ ns)

unfoldable pub sim_fields_for : TorrentDetail → SimFields
unfolding seed_of next
sim_fields_for t = record {
  base_down = t.rate_download;
  base_up = t.rate_upload;
  check_secs = max 20 (t.size_when_done / 60_000_000);
  prev_status = if leb whole t.percent_done then seed else download;
  prev_down = t.rate_download;
  prev_up = t.rate_upload;
  stall_until = 0;
  swarm = average (owned_copies t.availability);
  rand = (next (bit_xor (seed_of t.hash_string) 0x1b873593)).1;
}

-- `fields`
unfoldable pub fields_of : List (ℕ × SimFields) → TorrentDetail → SimFields
unfolding sim_fields_for
fields_of sim t = or_else (lookup t.id sim) (sim_fields_for t)
