-- ===== src/Sim/Tests.antt =====
-- The simulator at the small world of Samples.
use native.Mathlib.Nat.{mul-le-mul_right, div-mul-le_self, div-le_of_le-mul}
use transmission_ui.Sim.Samples.{exact}
use transmission_ui.Prelude.{
  ◌+◌, ◌*◌, take, All, Text, codes, text_eq, text_eq_refl, starts_with, ℕ, ◌≤◌, min, ◌≡◌, refl,
  some, [], ◌∷◌, ◌++◌, map, arith,
}
use transmission_ui.Prelude.Int.{pos}
use transmission_ui.Prelude.Keyed.{nat_eq, text_eq_inst, contains, lookup}
use transmission_ui.Json.{num, str}
use transmission_ui.Types.{download_wait, download}
use transmission_ui.Types.Detail.{TorrentDetail}
use transmission_ui.Sim.Edit.{set, retotal}
use transmission_ui.Sim.Derive.{wanted_size, wanted_have}
use transmission_ui.Sim.Derive.{is_checking, pieces_had, distribute_bytes, sum_wanted}
use transmission_ui.Sim.Derive.Totals.{IsBalanced, IsSpread, distribute_bytes_lem}
use transmission_ui.Sim.Queue.{ids, with_status, start_each, pass, next_check, promote_queue}
use transmission_ui.Sim.Queue.Promotion.{IsPromoted, promote_queue-IsPromoted}
use transmission_ui.Sim.Edit.{stop, verify}
use transmission_ui.Sim.Edit.Bytes.{SameBytes, stop-verify, untick, tick, mark, set-untick}
use transmission_ui.Sim.Requests.{method_of}
use transmission_ui.Sim.Ids.{one_id, normalize_ids, is_selected}
use transmission_ui.Sim.Ids.Named.{is_named, normalize_ids-named}
use transmission_ui.Sim.Adding.Names.{named, hash_in}
use transmission_ui.Sim.Adding.{add_torrent, torrent_added, created, prepared, add_unless}
use transmission_ui.Sim.Adding.Arrivals.{joined_by}
use transmission_ui.Sim.Handlers.Present.{arrivals}
use transmission_ui.Prelude.{index_of}
use transmission_ui.Sim.Edit.{marked}
use transmission_ui.Sim.Derive.{reconcile}
use transmission_ui.Sim.Dispatch.{handle}
use transmission_ui.Methods.{method_name}
use transmission_ui.Menu.{torrent_menu, view_menu}
use transmission_ui.Menu.Harmless.{calls_of, IsHarmless, torrent_menu-IsHarmless}
use transmission_ui.Sim.Handlers.{base_dir}
use transmission_ui.Sim.Handlers.Present.{torrents_after, ids_after, handle-ids}
use transmission_ui.Sim.Pieces.{piece_order, piece_bytes}
use transmission_ui.Sim.Pieces.Strip.{have-piece_bytes}
use transmission_ui.Inspector.Pieces.{have, count_had}
use transmission_ui.Sim.Rates.{cap_of, honored_sum, apply_session_caps}
use transmission_ui.Sim.Rates.{downward}
use transmission_ui.Sim.Rates.Budget.{honoring, IsLowered, apply_session_caps-le}
use transmission_ui.Sim.Advance.{advance}
use transmission_ui.Sim.Advance.Counts.{Keeps}
use transmission_ui.Sim.Advance.Sound.{advance-Keeps}
use transmission_ui.Sim.Announce.{announce}
use transmission_ui.Sim.Announce.Again.{announce-again}
use transmission_ui.Sim.Samples.{
  stat, settings, first, second, two, fields_now, base_space, world, marks, magnet_args, args,
  plain, parts, rates, amounts, running, defs, both_ids,
}

-- The first of the two is started, the second waits.
starts_one :
    map (λ (t : TorrentDetail). t.status) (promote_queue settings 5 two)
    ≡ download ∷ download_wait ∷ []
unfolding promote_queue pass start_each with_status next_check
starts_one = refl

promote_queue-IsPromoted_example : IsPromoted settings 5 two (promote_queue settings 5 two)
promote_queue-IsPromoted_example = promote_queue-IsPromoted settings 5 two (refl, (refl, tt))

handle-ids_example :
    ids (torrents_after world (handle plain plain parts world (codes "torrent_remove") args 5))
    ≡ joined_by (arrivals (handle plain plain parts world (codes "torrent_remove") args 5)) (
        ids_after (method_of (codes "torrent_remove")) (normalize_ids two (some (num (pos 2)))) two)
handle-ids_example = handle-ids plain plain parts world (codes "torrent_remove") args 5 (λ t. refl)

-- A magnet link is added behind the others, with its hash in small letters, and waits.
magnet_is_added :
    (add_torrent parts magnet_args marks 5 world).0
    ≡ torrent_added 3
        (codes "00112233445566778899aabbccddeeff00112233")
        (codes "00112233445566778899aabbccddeeff00112233")
unfolding add_torrent named hash_in starts_with index_of text_eq created prepared add_unless marked
    reconcile
magnet_is_added = refl

-- A bare id takes away one torrent.
one_is_left :
    ids_after (method_of (codes "torrent_remove")) (normalize_ids two (some (num (pos 2)))) two
    ≡ 1 ∷ []
unfolding method_of normalize_ids one_id is_selected text_eq
one_is_left = refl

normalize_ids-named_example :
    All
      (λ t.
        is_selected (normalize_ids two (some (str (codes "BB")))) t ≡ is_named (str (codes "BB")) t)
      two
unfolding text_eq
normalize_ids-named_example =
    normalize_ids-named two (refl, (refl, tt)) (refl, (refl, tt)) (str (codes "BB")) refl

first-IsBalanced : IsBalanced first
first-IsBalanced = record { sums = refl; share_le = omega arith; all_had = λ h. ground arith }

stop-verify_example :
    SameBytes first (stop (verify first)) × ((stop (verify (verify first))).have_valid ≡ 0)
stop-verify_example = stop-verify first refl first-IsBalanced refl

sized_by_table : (first.size_when_done ≡ wanted_size first) × (first.have_valid ≡ wanted_have first)
unfolding wanted_size wanted_have
sized_by_table = (refl, refl)

set-untick_example :
    (let u = mark plain plain settings (tick 1) (mark plain plain settings (untick 1) first) in
      (u.files ≡ first.files)
      × (u.file_stats ≡ first.file_stats)
      × (u.size_when_done ≡ first.size_when_done)
      × (u.have_valid ≡ first.have_valid))
set-untick_example =
    set-untick plain plain settings 1 first (stat 0) refl refl sized_by_table.0 sized_by_table.1

-- The bytes that a step brought are not in the file table: touching a file's mark drops them.
abbrev loaded : TorrentDetail
loaded = record first { have_valid = first.have_valid + 40 }

marks_drop_bytes : (mark plain plain settings (tick 1) loaded).have_valid ≡ first.have_valid
unfolding set retotal reconcile wanted_size wanted_have marked
marks_drop_bytes = refl

have-piece_bytes_example :
    (let order = piece_order 20 7 in
      let bytes = piece_bytes order 500_000 in
      ((i : ℕ) → have bytes i ≡ contains i (take (pieces_had 20 500_000) order))
      × (count_had bytes 0 20 ≡ pieces_had 20 500_000))
have-piece_bytes_example = have-piece_bytes 20 7 500_000

distribute_bytes_example :
    (let (gs, us) = distribute_bytes first.files first.file_stats 70 in
      IsSpread first.files first.file_stats gs
      × (sum_wanted (λ f. f.bytes_completed) gs us
          ≡ min 70 (sum_wanted (λ f. f.length) first.files first.file_stats)))
distribute_bytes_example = distribute_bytes_lem first.files first.file_stats 70

advance-Keeps_example :
    Keeps running (advance (λ n t. t) settings rates amounts 5 running fields_now).torrent
unfolding is_checking
advance-Keeps_example =
    advance-Keeps (λ n t. t) settings rates amounts 5 running fields_now
      (record { known = refl; sums = refl; settled = λ e. refl })

-- Products that are rounded down.
exact_near : (rate cap sum : ℕ) → exact rate cap sum * sum ≤ rate * cap + sum
exact_near rate cap sum = omega (arith, div-mul-le_self (rate * cap) sum)

exact_lowers : (rate cap sum : ℕ) → cap ≤ sum → exact rate cap sum ≤ rate
exact_lowers rate cap sum le =
    let product : rate * cap ≤ sum * rate = grind (arith, mul-le-mul_right rate le) in
    div-le_of_le-mul sum product

apply_session_caps-le_example :
    (honored_sum downward
        (apply_session_caps exact settings ((first, rates) ∷ (second, rates) ∷ []))
      ≤ 1_000 + honoring ((first, rates) ∷ (second, rates) ∷ []))
    × IsLowered
        ((first, rates) ∷ (second, rates) ∷ [])
        (apply_session_caps exact settings ((first, rates) ∷ (second, rates) ∷ []))
unfolding cap_of
apply_session_caps-le_example =
    apply_session_caps-le exact exact_near exact_lowers settings downward 1_000
      ((first, rates) ∷ (second, rates) ∷ []) refl

announce-again_example :
    (let u = (announce plain defs [] 5 running 7).0 in announce plain defs [] 5 u 8 ≡ (u, 8))
announce-again_example = announce-again plain defs [] 5 running 7 8

torrent_menu-IsHarmless_example :
    All
      (IsHarmless plain plain parts world args 5 first both_ids)
      (calls_of (torrent_menu [] both_ids) ++ calls_of (view_menu both_ids))
torrent_menu-IsHarmless_example =
    torrent_menu-IsHarmless plain plain parts world args 5 first base_space (base_found base_dir)
      (λ t. refl) [] both_ids
  where
    base_found : (k : Text) → lookup k ((k, base_space) ∷ []) ≡ some base_space
    base_found k = rw (text_eq_refl k) refl

-- The calls of the menus of two torrents of which none is stopped.
menu_sends :
    map method_name (calls_of (torrent_menu [] both_ids))
    ≡ codes "torrent_stop"
      ∷ codes "torrent_reannounce"
      ∷ codes "torrent_verify"
      ∷ codes "queue_move_top"
      ∷ codes "queue_move_up"
      ∷ codes "queue_move_down"
      ∷ codes "queue_move_bottom"
      ∷ []
unfolding torrent_menu
menu_sends = refl
