-- ===== src/Sim/Handlers/Errors.antt =====
-- When a request fails.
use transmission_ui.Prelude.{
  List, [], ◌∷◌, true, text_eq, ◌∙◌, if◌then◌else◌, or_else, is_some, Text, codes, starts_with, ℕ,
  ◌≡◌, refl, ◌||◌, Option, none, some, ◌++◌, arith,
}
use transmission_ui.Prelude.Keyed.{nat_eq, text_eq_inst, contains, lookup, keys}
use transmission_ui.Prelude.Maps.{contains-keys}
use transmission_ui.Paths.{mount_of}
use transmission_ui.Methods.{Call, method_name, top, up, down, bottom}
use transmission_ui.Sim.{Space, SimState}
use transmission_ui.Sim.Requests.{
  Args, Method, session_get, session_set, session_stats, free_space, port_test, blocklist_update,
  torrent_get, torrent_start, torrent_start_now, torrent_stop, torrent_verify, torrent_reannounce,
  torrent_remove, torrent_set, torrent_set_location, torrent_rename_path, torrent_add,
  queue_move_to, methods, queue_move_prefix, or_queue_move, method_of, Handled, answered, failed,
}
use transmission_ui.Sim.Adding.Names.{Parts}
use transmission_ui.Sim.Adding.{add_torrent}
use transmission_ui.Sim.Ids.{Ids, normalize_ids}
use transmission_ui.Sim.Dispatch.{run, dispatch, handle}
use transmission_ui.Sim.Handlers.{
  base_dir, or_space, space_answer, free_space_at, torrent_get_answer,
}

-- Whether a request fails, and with which text.
abbrev pub failure : Handled → Option Text
failure (answered a s) = none
failure (failed e) = some e

-- The methods of the protocol that the development server answers, but for the moves in the queue.
abbrev pub served : List Text
served =
    codes "session_get"
    ∷ codes "session_set"
    ∷ codes "session_stats"
    ∷ codes "free_space"
    ∷ codes "port_test"
    ∷ codes "blocklist_update"
    ∷ codes "torrent_get"
    ∷ codes "torrent_start"
    ∷ codes "torrent_start_now"
    ∷ codes "torrent_stop"
    ∷ codes "torrent_verify"
    ∷ codes "torrent_reannounce"
    ∷ codes "torrent_remove"
    ∷ codes "torrent_set"
    ∷ codes "torrent_set_location"
    ∷ codes "torrent_rename_path"
    ∷ codes "torrent_add"
    ∷ []

methods-served : (m : Text) → contains m (keys methods) ≡ contains m served
methods-served m = refl

-- Every call of ui/src/rpc/methods.ts is of a method that is served.
pub call-served :
    (c : Call)
    → (contains (method_name c) served || starts_with (method_name c) (codes "queue_move_")) ≡ true
unfolding text_eq starts_with
call-served (Call.get_torrents ids) = refl
call-served (Call.get_torrent_fields id fields) = refl
call-served Call.get_session = refl
call-served Call.get_stats = refl
call-served Call.blocklist_update = refl
call-served (Call.set_session given) = refl
call-served (Call.free_space path) = refl
call-served (Call.port_test ip) = refl
call-served (Call.start ids) = refl
call-served (Call.stop ids) = refl
call-served (Call.verify ids) = refl
call-served (Call.reannounce ids) = refl
call-served (Call.remove ids) = refl
call-served (Call.queue_move top ids) = refl
call-served (Call.queue_move up ids) = refl
call-served (Call.queue_move down ids) = refl
call-served (Call.queue_move bottom ids) = refl
call-served (Call.set_location ids to) = refl
call-served (Call.rename_path id path name) = refl
call-served (Call.set_torrent ids given) = refl
call-served (Call.add_torrent given) = refl

module _ (encode : Text → Text) (host_of : Text → Text) (parts : Parts) where
  free_space_at-answers :
      (path : Text) (s : SimState) (e : Space)
      → lookup base_dir s.space ≡ some e
      → failure (free_space_at path s) ≡ none
  unfolding free_space_at
  free_space_at-answers path s e h = answers (lookup (mount_of path s.session.download_dir) s.space)
    where
      answers :
          (o : Option Space)
          → failure (space_answer path s (or_space o (lookup base_dir s.space))) ≡ none
      answers none = rw h refl
      answers (some d) = refl

  run-answers :
      (k : Method) (ids : Option Ids) (args : Args) (now : ℕ) (s : SimState) (e : Space)
      → lookup base_dir s.space ≡ some e
      → failure (run encode host_of parts k ids args now s) ≡ none
  unfolding run torrent_get_answer add_torrent
  run-answers free_space ids args now s e h =
      free_space_at-answers (or_else args.path base_dir) s e h
  run-answers session_get ids args now s e h = refl
  run-answers session_set ids args now s e h = refl
  run-answers session_stats ids args now s e h = refl
  run-answers port_test ids args now s e h = refl
  run-answers blocklist_update ids args now s e h = refl
  run-answers torrent_get ids args now s e h = refl
  run-answers torrent_start ids args now s e h = refl
  run-answers torrent_start_now ids args now s e h = refl
  run-answers torrent_stop ids args now s e h = refl
  run-answers torrent_verify ids args now s e h = refl
  run-answers torrent_reannounce ids args now s e h = refl
  run-answers torrent_remove ids args now s e h = refl
  run-answers torrent_set ids args now s e h = refl
  run-answers torrent_set_location ids args now s e h = refl
  run-answers torrent_rename_path ids args now s e h = refl
  run-answers torrent_add ids args now s e h = refl
  run-answers (queue_move_to direction) ids args now s e h = refl

  or_queue_move-is_some :
      (m : Text) (o : Option Method)
      → is_some (or_queue_move m o) ≡ (is_some o || starts_with m queue_move_prefix)
  or_queue_move-is_some m none = ground arith
  or_queue_move-is_some m (some k) = refl

  dispatch-failure :
      (o : Option Method) (s : SimState) (method : Text) (args : Args) (now : ℕ) (e : Space)
      → lookup base_dir s.space ≡ some e
      → failure (dispatch encode host_of parts o s method args now)
        ≡ (if is_some o then none else some (codes "unhandled method: " ++ method))
  unfolding dispatch
  dispatch-failure none s method args now e h = refl
  dispatch-failure (some k) s method args now e h =
      run-answers k (normalize_ids s.torrents args.ids) args now s e h

  failure_of_method :
      (s : SimState) (method : Text) (args : Args) (now : ℕ) (e : Space)
      → lookup base_dir s.space ≡ some e
      → failure (handle encode host_of parts s method args now) ≡ (
          if contains method served || starts_with method (codes "queue_move_")
          then none
          else some (codes "unhandled method: " ++ method))
  unfolding handle method_of
  failure_of_method s method args now e h =
      rw
        (
          ← methods-served method,
          contains-keys method methods,
          ← or_queue_move-is_some method (lookup method methods),
        )
        (dispatch-failure (method_of method) s method args now e h)

  pub handle-failure :
      (s : SimState) (method : Text) (args : Args) (now : ℕ) (e : Space) (c : Call)
      → lookup base_dir s.space ≡ some e
      → (failure (handle encode host_of parts s method args now) ≡ (
          if contains method served || starts_with method (codes "queue_move_")
          then none
          else some (codes "unhandled method: " ++ method)))
        × (failure (handle encode host_of parts s (method_name c) args now) ≡ none)
  handle-failure s method args now e c h = (
    failure_of_method s method args now e h,
    failure_of_method s (method_name c) args now e h ∙ (rw (call-served c) refl),
  )
