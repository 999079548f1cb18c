-- ===== src/Sim/Dispatch.antt =====
-- `handle` of ui/sim/handlers.ts: the switch over the methods.
use transmission_ui.Prelude.{
  if◌then◌else◌, or_else, keep, Text, codes, ℕ, ◌+◌, Option, none, some, [], ◌++◌, map,
}
use transmission_ui.Prelude.Keyed.{nat_eq, text_eq_inst}
use transmission_ui.Types.Detail.{TorrentDetail}
use transmission_ui.Sim.{SimState}
use transmission_ui.Sim.Queue.{ids, queue_move}
use transmission_ui.Sim.Rand.{int}
use transmission_ui.Sim.Ids.{Ids, normalize_ids, is_selected}
use transmission_ui.Sim.Edit.{start, stop, verify, reannounce, set, rename}
use transmission_ui.Sim.Requests.{
  Args, Method, session_get, session_set, session_stats, free_space, port_test, blocklist_update,
  torrent_get, torrent_start, torrent_start_now, torrent_stop, torrent_verify, torrent_reannounce,
  torrent_remove, torrent_set, torrent_set_location, torrent_rename_path, torrent_add, adds,
  queue_move_to, method_of, empty, session, stats, port, blocklist, Handled, answered, failed,
}
use transmission_ui.Sim.Adding.Names.{Parts}
use transmission_ui.Sim.Adding.{add_torrent}
use transmission_ui.Sim.Handlers.{
  base_dir, stats_of, free_space_at, selected, edit, start_each_now, note_prev, remove, relocated,
  move_each, torrent_get_answer, list_of_ids, naturals, not_checking, done, same_torrent,
}

module _ (encode : Text → Text) (host_of : Text → Text) (parts : Parts) where
  unfoldable pub run : Method → Option Ids → Args → ℕ → SimState → Handled
  unfolding stats_of free_space_at remove start_each_now note_prev move_each queue_move int start
      stop verify reannounce set rename torrent_get_answer add_torrent
  run session_get ids args now s = answered (session s.session) s
  run session_set ids args now s =
      let session = args.session s.session in
      let s1 = record s { session = session; port_open = session.port_forwarding_enabled } in
      done now s1 s.torrents
  run session_stats ids args now s = answered (stats (stats_of s)) s
  run free_space ids args now s = free_space_at (or_else args.path base_dir) s
  run port_test ids args now s = answered (port s.port_open) s
  run blocklist_update ids args now s =
      let (d, a) = int 0 200_000 s.rand in
      answered (blocklist (300_000 + d))
        (record s { rand = a; session = record s.session { blocklist_size = 300_000 + d } })
  run torrent_get ids args now s = torrent_get_answer now ids args.fields s
  run torrent_start ids args now s = done now s (edit (not_checking ids) now start s.torrents)
  run torrent_start_now ids args now s =
      let ks = map (λ (t : TorrentDetail). t.id) (keep (not_checking ids) s.torrents) in
      done now s (start_each_now now ks s.torrents)
  run torrent_stop ids args now s = done now s (edit (is_selected ids) now stop s.torrents)
  run torrent_verify ids args now s =
      let s1 = record s { sim = note_prev (selected ids s.torrents) s.sim } in
      done now s1 (edit (is_selected ids) now verify s.torrents)
  run torrent_reannounce ids args now s =
      answered empty
        (record s { torrents = edit (is_selected ids) now (reannounce now) s.torrents })
  run torrent_remove ids args now s = answered empty (remove args.delete_local_data now ids s)
  run torrent_set ids args now s =
      let change = set encode host_of s.session args.marks args.torrent args.tracker_list in
      answered empty (record s { torrents = edit (is_selected ids) now change s.torrents })
  run torrent_set_location ids args now s =
      let to = or_else args.location base_dir in
      let moved = move_each s.session.download_dir to (selected ids s.torrents) s.space in
      let s1 = if args.keeps_files then s else record s { space = moved } in
      answered empty (record s1 { torrents = edit (is_selected ids) now (relocated to) s.torrents })
  run torrent_rename_path ids args now s =
      let change = rename encode host_of (or_else args.path []) (or_else args.name []) in
      answered empty (record s { torrents = edit (is_selected ids) now change s.torrents })
  run torrent_add ids args now s =
      let (result, s1) = add_torrent parts args.adding args.marks now s in answered (adds result) s1
  run (queue_move_to direction) ids args now s =
      let order = queue_move direction (naturals (list_of_ids ids)) s.torrents in
      done now s (edit (is_selected ids) now same_torrent order)

  unfoldable pub dispatch : Option Method → SimState → Text → Args → ℕ → Handled
  unfolding normalize_ids run
  dispatch none s method args now = failed (codes "unhandled method: " ++ method)
  dispatch (some k) s method args now = run k (normalize_ids s.torrents args.ids) args now s

  unfoldable pub handle : SimState → Text → Args → ℕ → Handled
  unfolding method_of dispatch
  handle s method args now = dispatch (method_of method) s method args now
