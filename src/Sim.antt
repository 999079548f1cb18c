-- ===== src/Sim.antt =====
-- ui/sim/state.ts: the world of the simulated daemon. A fraction is in millionths, as in Types. Bytes are
-- natural numbers of a unit fine enough for the fractions of a byte that the tick adds up. A mount of
-- `space` may be overdrawn, so its size is an integer.
pub mod Derive
pub mod Queue
pub mod Rand
pub mod Pieces
pub mod Ids
pub mod Goals
pub mod Edit
pub mod Rates
pub mod Advance
pub mod Announce
pub mod Fields
pub mod Tick
pub mod Adding
pub mod Requests
pub mod Handlers
pub mod Dispatch
mod Samples
mod Tests
use transmission_ui.Prelude.{ℕ, Bool, List, Text}
use transmission_ui.Prelude.Int.{ℤ}
use transmission_ui.Types.{Status, Session, StatsBlock}
use transmission_ui.Types.Detail.{TorrentDetail}

-- What is kept for a torrent and never goes over the wire. The generator is its 32-bit state.
pub record SimFields : Type 0 where
  pub base_down : ℕ
  pub base_up : ℕ
  pub check_secs : ℕ
  pub prev_status : Status
  pub prev_down : ℕ
  pub prev_up : ℕ
  pub stall_until : ℕ
  pub swarm : ℕ
  pub rand : ℕ

pub record Removed : Type 0 where
  pub id : ℕ
  pub at : ℕ

pub record Space : Type 0 where
  pub size : ℤ
  pub total : ℕ

pub record SimState : Type 0 where
  pub torrents : List TorrentDetail
  pub session : Session
  pub sim : List (ℕ × SimFields)
  pub removed : List Removed
  pub tracker_down : List (Text × ℕ)
  pub tracker_next : List (Text × ℕ)
  pub space : List (Text × Space)
  pub cur : StatsBlock
  pub cum : StatsBlock
  pub port_open : Bool
  pub next_id : ℕ
  pub recent_window_sec : ℕ
  pub speed : ℕ
  pub last_tick_ms : ℕ
  pub rand : ℕ
