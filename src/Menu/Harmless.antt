-- ===== src/Menu/Harmless.antt =====
-- What the calls of the menus do in the simulator of ui/sim/handlers.ts.
use transmission_ui.Prelude.{
  ◌==◌, All, All-append, Text, codes, text_eq, starts_with, ℕ, ◌≡◌, refl, ap, ◌∙◌, Bool, true,
  false, ◌||◌, Option, none, some, List, [], ◌∷◌, ◌++◌, map,
}
use transmission_ui.Prelude.Keyed.{nat_eq, text_eq_inst, contains, lookup}
use transmission_ui.Types.{TorrentSummary}
use transmission_ui.Types.Detail.{TorrentDetail}
use transmission_ui.Methods.{
  Direction, top, up, down, bottom, Call, start, stop, verify, reannounce, queue_move, method_name,
  items, params,
}
use transmission_ui.Json.{num}
use transmission_ui.Prelude.Int.{pos}
use transmission_ui.Menu.{
  Action, runs, Entry, Item, separator, header, entry, submenu, any_stopped, only_one,
  torrent_items, torrent_menu, view_menu,
}
use transmission_ui.Sim.{Space, SimState}
use transmission_ui.Sim.Queue.{ids}
use transmission_ui.Sim.Requests.{Args, method_of, Handled}
use transmission_ui.Sim.Handlers.{base_dir}
use transmission_ui.Sim.Dispatch.{handle, dispatch, run}
use transmission_ui.Sim.Adding.Names.{Parts}
use transmission_ui.Sim.Adding.Arrivals.{joined_by}
use transmission_ui.Sim.Handlers.Present.{arrivals}
use transmission_ui.Sim.Ids.{Ids, one_id, each_id, normalize_ids, names_id, is_selected}
use transmission_ui.Sim.Handlers.Errors.{failure, handle-failure}
use transmission_ui.Sim.Handlers.Present.{torrents_after, ids_after, handle-ids}

abbrev calls_of_action : Action → List Call
calls_of_action (runs l c) = c ∷ []
calls_of_action _ = []

abbrev calls_of_entries : List Entry → List Call
calls_of_entries [] = []
calls_of_entries (e ∷ es) = calls_of_action e.action ++ calls_of_entries es

-- The calls that the entries of a menu send.
abbrev pub calls_of : List Item → List Call
calls_of [] = []
calls_of (separator ∷ is) = calls_of is
calls_of (header l ∷ is) = calls_of is
calls_of (entry e ∷ is) = calls_of_action e.action ++ calls_of is
calls_of (submenu i l es ∷ is) = calls_of_entries es ++ calls_of is

-- The answer to a call, whose parameters are read from the request.
abbrev pub sent : (Text → Text) → (Text → Text) → Parts → SimState → Args → ℕ → Call → Handled
sent encode host_of parts s args now c =
    handle encode host_of parts s (method_name c)
      (record args { ids = lookup (codes "ids") (params c) }) now

-- The call selects the torrents with the given ids, is answered, and leaves every torrent in its place.
pub record IsHarmless (encode host_of : Text → Text) (parts : Parts) (s : SimState) (args : Args)
    (now : ℕ) (t : TorrentDetail) (ks : List ℕ) (c : Call) : Type 0 where
  selects :
      is_selected (normalize_ids s.torrents (lookup (codes "ids") (params c))) t ≡ contains t.id ks
  answers : failure (sent encode host_of parts s args now c) ≡ none
  keeps : ids (torrents_after s (sent encode host_of parts s args now c)) ≡ ids s.torrents

each_id-id_list :
    (ts : List TorrentDetail) (ks : List ℕ)
    → each_id ts (items (map (λ k. num (pos k)) ks)) ≡ map pos ks
unfolding each_id one_id
each_id-id_list ts [] = refl
each_id-id_list ts (k ∷ ks) = ap (◌∷◌ (pos k)) (each_id-id_list ts ks)

names_id-naturals : (ks : List ℕ) (i : ℕ) → names_id (map pos ks) i ≡ contains i ks
names_id-naturals [] i = refl
names_id-naturals (k ∷ ks) i = ap ((k == i) ||◌) (names_id-naturals ks i)

module _ (encode host_of : Text → Text) (parts : Parts) (s : SimState) (args : Args) (now : ℕ)
    (t : TorrentDetail) (e : Space) (mounted : lookup base_dir s.space ≡ some e)
    (assigns : (t : TorrentDetail) → (args.torrent t).id ≡ t.id) where
  -- A call on the ids alone, of a method that removes nothing.
  call-IsHarmless :
      (ks : List ℕ) (c : Call)
      → params c ≡ params (start ks)
      → ((o : Option Ids) (ts : List TorrentDetail)
          → ids_after (method_of (method_name c)) o ts ≡ ids ts)
      → arrivals (sent encode host_of parts s args now c) ≡ []
      → IsHarmless encode host_of parts s args now t ks c
  unfolding params normalize_ids is_selected text_eq
  call-IsHarmless ks c on_ids gentle none_comes =
      let asked : Args = record args { ids = lookup (codes "ids") (params c) } in
      record {
        selects = rw (on_ids, each_id-id_list s.torrents ks) (names_id-naturals ks t.id);
        answers = (handle-failure encode host_of parts s (method_name c) asked now e c mounted).1;
        keeps =
            handle-ids encode host_of parts s (method_name c) asked now assigns
            ∙ (ap
                  (λ new. joined_by new (
                    ids_after (method_of (method_name c)) (normalize_ids s.torrents asked.ids)
                      s.torrents))
                  none_comes
                ∙ gentle (normalize_ids s.torrents asked.ids) s.torrents);
      }

  start-IsHarmless : (ks : List ℕ) → IsHarmless encode host_of parts s args now t ks (start ks)
  unfolding params method_of text_eq starts_with handle dispatch run
  start-IsHarmless ks = call-IsHarmless ks (start ks) refl (λ o ts. refl) refl

  stop-IsHarmless : (ks : List ℕ) → IsHarmless encode host_of parts s args now t ks (stop ks)
  unfolding params method_of text_eq starts_with handle dispatch run
  stop-IsHarmless ks = call-IsHarmless ks (stop ks) refl (λ o ts. refl) refl

  reannounce-IsHarmless :
      (ks : List ℕ) → IsHarmless encode host_of parts s args now t ks (reannounce ks)
  unfolding params method_of text_eq starts_with handle dispatch run
  reannounce-IsHarmless ks = call-IsHarmless ks (reannounce ks) refl (λ o ts. refl) refl

  verify-IsHarmless : (ks : List ℕ) → IsHarmless encode host_of parts s args now t ks (verify ks)
  unfolding params method_of text_eq starts_with handle dispatch run
  verify-IsHarmless ks = call-IsHarmless ks (verify ks) refl (λ o ts. refl) refl

  queue_move-IsHarmless :
      (to : Direction) (ks : List ℕ)
      → IsHarmless encode host_of parts s args now t ks (queue_move to ks)
  unfolding params method_of text_eq starts_with handle dispatch run
  queue_move-IsHarmless top ks = call-IsHarmless ks (queue_move top ks) refl (λ o ts. refl) refl
  queue_move-IsHarmless up ks = call-IsHarmless ks (queue_move up ks) refl (λ o ts. refl) refl
  queue_move-IsHarmless down ks = call-IsHarmless ks (queue_move down ks) refl (λ o ts. refl) refl
  queue_move-IsHarmless bottom ks =
      call-IsHarmless ks (queue_move bottom ks) refl (λ o ts. refl) refl

  -- The calls behind the first entry of a menu.
  rest_of_menu : List ℕ → List Call
  rest_of_menu ks =
      reannounce ks
      ∷ verify ks
      ∷ queue_move top ks
      ∷ queue_move up ks
      ∷ queue_move down ks
      ∷ queue_move bottom ks
      ∷ []

  rest_of_menu-IsHarmless :
      (ks : List ℕ) → All (IsHarmless encode host_of parts s args now t ks) (rest_of_menu ks)
  unfolding rest_of_menu
  rest_of_menu-IsHarmless ks =
      let move : (to : Direction)
          → IsHarmless encode host_of parts s args now t ks (queue_move to ks) =
        λ to. queue_move-IsHarmless to ks in
      (
        reannounce-IsHarmless ks,
        (verify-IsHarmless ks, (move top, (move up, (move down, (move bottom, tt))))),
      )

  torrent_items-IsHarmless :
      (some_stopped : Bool) (one : Option TorrentSummary) (ks : List ℕ)
      → All
          (IsHarmless encode host_of parts s args now t ks)
          (calls_of (torrent_items some_stopped one ks))
  unfolding rest_of_menu
  torrent_items-IsHarmless true none ks = (start-IsHarmless ks, rest_of_menu-IsHarmless ks)
  torrent_items-IsHarmless true (some o) ks = (start-IsHarmless ks, rest_of_menu-IsHarmless ks)
  torrent_items-IsHarmless false none ks = (stop-IsHarmless ks, rest_of_menu-IsHarmless ks)
  torrent_items-IsHarmless false (some o) ks = (stop-IsHarmless ks, rest_of_menu-IsHarmless ks)

  -- No entry of a menu removes a torrent: each call that the menus of a row and of the view send selects in the
  -- simulator just the torrents with the ids of the menu, is answered, and leaves every torrent in its place, while
  -- the base directory has its mount and assigning members to a torrent keeps its id.
  pub torrent_menu-IsHarmless :
      (by_id : List (ℕ × TorrentSummary)) (ks : List ℕ)
      → All
          (IsHarmless encode host_of parts s args now t ks)
          (calls_of (torrent_menu by_id ks) ++ calls_of (view_menu ks))
  unfolding torrent_menu view_menu
  torrent_menu-IsHarmless by_id ks =
      All-append (IsHarmless encode host_of parts s args now t ks)
        (calls_of (torrent_menu by_id ks)) (calls_of (view_menu ks))
        (torrent_items-IsHarmless (any_stopped by_id ks) (only_one by_id ks) ks)
        (
          start-IsHarmless ks,
          (stop-IsHarmless ks, (reannounce-IsHarmless ks, (verify-IsHarmless ks, tt))),
        )
