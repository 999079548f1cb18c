-- ===== src/Sim/Adding.antt =====
-- `addTorrent` of ui/sim/handlers.ts. `query_of` is URLSearchParams, `sha1` the digest of Node, `parse` fromMetainfo,
-- and `make` newTorrent, with the options in its order.
pub mod Names
pub mod Arrivals
use transmission_ui.Prelude.{
  ltb, if◌then◌else◌, or_else, length, find, Text, text_eq, ℕ, zero, suc, ◌+◌, max, Bool, not, ◌||◌,
  Option, none, some, List, [], ◌∷◌, ◌++◌,
}
use transmission_ui.Prelude.Int.{ℤ}
use transmission_ui.Prelude.Keyed.{nat_eq, text_eq_inst, lookup, insert}
use transmission_ui.Trackers.{lower}
use transmission_ui.Types.{StatsBlock, stopped, download_wait, status_eq}
use transmission_ui.Prelude.Int.{pos}
use transmission_ui.Types.Detail.{TorrentDetail}
use transmission_ui.Sim.{SimState}
use transmission_ui.Sim.Rand.{int}
use transmission_ui.Sim.Fields.{sim_fields_for}
use transmission_ui.Sim.Derive.{reconcile, wanted_size, renumber_queue}
use transmission_ui.Sim.Queue.{promote_queue}
use transmission_ui.Sim.Adding.Names.{AddArgs, NewTorrentOptions, Parts, Named, named}
use transmission_ui.Sim.Edit.{FileMarks, marked}

pub data AddResult : Type 0 where
  torrent_added torrent_duplicate : (id : ℕ) → (name : Text) → (hash_string : Text) → AddResult

abbrev hex_digit : ℕ → ℕ
hex_digit n = if ltb n 10 then 48 + n else 87 + n

-- `n` digits of `randomHash`, with the generator after them.
unfoldable pub random_hash : ℕ → ℕ → Text × ℕ
unfolding int
random_hash zero a = ([], a)
random_hash (suc n) a =
    let (digit, b) = int 0 15 a in
    let (digits, c) = random_hash n b in (hex_digit digit ∷ digits, c)

-- While the metadata comes in there are no files and no size.
abbrev without_metadata : Option ℕ → TorrentDetail → TorrentDetail
without_metadata (some zero) t = record t {
  metadata_percent_complete = 0;
  files = [];
  file_stats = [];
  size_when_done = 0;
  total_size = 0;
  left_until_done = 0;
  have_valid = 0;
  piece_count = 0;
  pieces = [];
  availability = [];
}
without_metadata _ t = t

-- The torrent on its way into the list.
unfoldable pub prepared : FileMarks → Option ℕ → ℕ → TorrentDetail → TorrentDetail
unfolding marked wanted_size reconcile
prepared marks meta place t =
    let u = without_metadata meta t in
    let choice = record marks { files_wanted = []; priority_normal = [] } in
    let v = record u { file_stats = marked choice u.file_stats } in
    let sized = reconcile (record v { size_when_done = wanted_size v }) in
    record sized {
      status = if status_eq sized.status stopped then stopped else download_wait;
      queue_position = pos place;
    }

abbrev counts_files : ℕ → StatsBlock → StatsBlock
counts_files n b = record b { files_added = b.files_added + max 1 n }

-- The torrent is pushed, and the queue numbered and promoted.
unfoldable pub pushed : ℕ → TorrentDetail → SimState → SimState
unfolding sim_fields_for renumber_queue promote_queue
pushed now t s = record s {
  torrents = promote_queue s.session now (renumber_queue (s.torrents ++ t ∷ []));
  sim = insert t.id (sim_fields_for t) s.sim;
  next_id = s.next_id + 1;
  cur = counts_files (length t.files) s.cur;
  cum = counts_files (length t.files) s.cum;
}

abbrev pub hash_or_random : Text → ℕ → Text × ℕ
unfolding random_hash
hash_or_random [] a = random_hash 40 a
hash_or_random (c ∷ h) a = (c ∷ h, a)

abbrev text_or : Text → Text → Text
text_or [] d = d
text_or (c ∷ s) d = c ∷ s

-- With no torrent of the same hash there, the new one is pushed.
unfoldable pub add_unless :
    Option TorrentDetail → ℕ → TorrentDetail → SimState → AddResult × SimState
unfolding pushed
add_unless (some dup) now t s = (torrent_duplicate dup.id dup.name dup.hash_string, s)
add_unless none now t s = (torrent_added t.id t.name t.hash_string, pushed now t s)

-- The new torrent, whose hash is known.
unfoldable pub created : Parts → AddArgs → FileMarks → ℕ → SimState → Named → Text → TorrentDetail
unfolding prepared
created p args marks now s n hash =
    let options : NewTorrentOptions = record {
      labels = args.labels;
      size = n.size;
      file_count = n.file_count;
      meta = n.meta;
      priority = args.bandwidth_priority;
      paused = args.paused || not s.session.start_added_torrents;
    } in
    let dir = or_else args.download_dir s.session.download_dir in
    prepared marks n.meta (length s.torrents)
      (p.make s.next_id (text_or n.name hash) hash dir now options)

abbrev pub with_hash_string : Text → List TorrentDetail → Option TorrentDetail
with_hash_string hash ts = find (λ u. text_eq u.hash_string hash) ts

unfoldable pub add_torrent : Parts → AddArgs → FileMarks → ℕ → SimState → AddResult × SimState
unfolding named random_hash created add_unless
add_torrent p args marks now s =
    let n = named p args in
    let (hash, a) = hash_or_random n.hash s.rand in
    add_unless (with_hash_string hash s.torrents) now (created p args marks now s n hash)
      (record s { rand = a })
