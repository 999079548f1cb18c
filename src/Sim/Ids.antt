-- ===== src/Sim/Ids.antt =====
-- `normalizeIds` of ui/sim/handlers.ts, and which torrents a request selects.
pub mod Named
use transmission_ui.Prelude.{
  ◌==◌, if◌then◌else◌, any, find, Text, codes, text_eq, ℕ, Bool, true, false, Option, none, some,
  List, [], ◌∷◌, ◌++◌, arith,
}
use transmission_ui.Prelude.Int.{ℤ, pos, negsuc}
use transmission_ui.Json.{Json, null, num, str, arr, Items, nil, cons}
use transmission_ui.Trackers.{lower}
use transmission_ui.Types.Detail.{TorrentFile, FileStat, Peer, PeersFrom, TorrentDetail}

-- `number[] | 'recently_active'`
pub data Ids : Type 0 where
  recently_active : Ids
  these : List ℤ → Ids

abbrev pub with_hash : Text → List TorrentDetail → Option TorrentDetail
with_hash h ts = find (λ t. text_eq t.hash_string h) ts

abbrev pub id_of : Option TorrentDetail → List ℤ
id_of none = []
id_of (some t) = pos t.id ∷ []

-- A number of JSON is finite.
unfoldable pub one_id : List TorrentDetail → Json → List ℤ
one_id ts (num n) = n ∷ []
one_id ts (str s) = id_of (with_hash (lower s) ts)
one_id ts _ = []

unfoldable pub each_id : List TorrentDetail → Items → List ℤ
unfolding one_id
each_id ts nil = []
each_id ts (cons j js) = one_id ts j ++ each_id ts js

-- `none` for undefined.
unfoldable pub normalize_ids : List TorrentDetail → Option Json → Option Ids
unfolding one_id each_id
normalize_ids ts none = none
normalize_ids ts (some null) = none
normalize_ids ts (some (str s)) =
    if text_eq s (codes "recently_active")
    then some recently_active
    else some (these (one_id ts (str s)))
normalize_ids ts (some (arr js)) = some (these (each_id ts js))
normalize_ids ts (some j) = some (these (one_id ts j))

-- `ids.includes(id)`
abbrev pub is_int : ℕ → ℤ → Bool
is_int k (pos n) = n == k
is_int k (negsuc n) = false

abbrev pub names_id : List ℤ → ℕ → Bool
names_id ids k = any (is_int k) ids

-- Whether `selected()` has the torrent: all of them unless the ids are a list.
unfoldable pub is_selected : Option Ids → TorrentDetail → Bool
is_selected (some (these ids)) t = names_id ids t.id
is_selected (some recently_active) t = true
is_selected none t = true
