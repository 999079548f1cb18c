-- ===== src/Sim/Requests.antt =====
-- The requests and answers of `handle` in ui/sim/handlers.ts. The members of a request
-- have the types to which the source casts them: a member of another type, on which the source may throw a
-- TypeError, is not modelled. Assigning the other members to the session or to a torrent is a function.
use transmission_ui.Prelude.{
  if◌then◌else◌, length, drop, Text, codes, starts_with, ℕ, Bool, Option, none, some, List, [], ◌∷◌,
}
use transmission_ui.Prelude.Int.{ℤ}
use transmission_ui.Prelude.Keyed.{nat_eq, text_eq_inst, lookup}
use transmission_ui.Json.{Json}
use transmission_ui.Types.{Session, SessionStats}
use transmission_ui.Types.Detail.{TorrentDetail}
use transmission_ui.Sim.{SimState}
use transmission_ui.Sim.Edit.{FileMarks}
use transmission_ui.Sim.Adding.Names.{AddArgs}
use transmission_ui.Sim.Adding.{AddResult}

pub record Args : Type 0 where
  pub ids : Option Json
  pub session : Session → Session
  pub torrent : TorrentDetail → TorrentDetail
  pub marks : FileMarks
  pub tracker_list : Option Text
  pub fields : Option (List Text)
  pub path : Option Text
  pub name : Option Text
  pub location : Option Text
  pub keeps_files : Bool
  pub delete_local_data : Bool
  pub adding : AddArgs

pub data Method : Type 0 where
  session_get session_set session_stats free_space port_test blocklist_update : Method
  torrent_get torrent_start torrent_start_now torrent_stop torrent_verify : Method
  torrent_reannounce torrent_remove torrent_set torrent_set_location torrent_rename_path
        torrent_add :
      Method
  queue_move_to : Text → Method

abbrev pub methods : List (Text × Method)
methods =
    (codes "session_get", session_get)
    ∷ (codes "session_set", session_set)
    ∷ (codes "session_stats", session_stats)
    ∷ (codes "free_space", free_space)
    ∷ (codes "port_test", port_test)
    ∷ (codes "blocklist_update", blocklist_update)
    ∷ (codes "torrent_get", torrent_get)
    ∷ (codes "torrent_start", torrent_start)
    ∷ (codes "torrent_start_now", torrent_start_now)
    ∷ (codes "torrent_stop", torrent_stop)
    ∷ (codes "torrent_verify", torrent_verify)
    ∷ (codes "torrent_reannounce", torrent_reannounce)
    ∷ (codes "torrent_remove", torrent_remove)
    ∷ (codes "torrent_set", torrent_set)
    ∷ (codes "torrent_set_location", torrent_set_location)
    ∷ (codes "torrent_rename_path", torrent_rename_path)
    ∷ (codes "torrent_add", torrent_add)
    ∷ []

abbrev pub queue_move_prefix : Text
queue_move_prefix = codes "queue_move_"

abbrev pub or_queue_move : Text → Option Method → Option Method
or_queue_move m (some k) = some k
or_queue_move m none =
    if starts_with m queue_move_prefix
    then some (queue_move_to (drop (length queue_move_prefix) m))
    else none

-- The `case` that a method takes.
unfoldable pub method_of : Text → Option Method
method_of m = or_queue_move m (lookup m methods)

pub data Answer : Type 0 where
  empty : Answer
  session : Session → Answer
  stats : SessionStats → Answer
  space : Text → ℤ → ℕ → Answer
  port : Bool → Answer
  blocklist : ℕ → Answer
  adds : AddResult → Answer
  torrents : List TorrentDetail → Option (List ℕ) → Answer

-- An answer with the state after it, or a failure; a failure leaves the state as it was.
pub data Handled : Type 0 where
  answered : Answer → SimState → Handled
  failed : Text → Handled
