-- ===== src/Sim/Adding/Names.antt =====
-- What the request of `addTorrent` in ui/sim/handlers.ts says of the torrent.
use transmission_ui.Prelude.{
  leb, ◌==◌, if◌then◌else◌, or_else, length, take, drop, all, Text, codes, text_eq, starts_with,
  is_empty, index_of, ℕ, ◌+◌, ◌-◌, Bool, false, not, ◌&&◌, ◌||◌, Option, none, some, List, [], ◌∷◌,
}
use transmission_ui.Prelude.Int.{ℤ}
use transmission_ui.Prelude.Keyed.{nat_eq, text_eq_inst, lookup}
use transmission_ui.Trackers.{lower}
use transmission_ui.Types.Detail.{TorrentDetail}
use transmission_ui.Listing.Status.{is_line_end}

pub record AddArgs : Type 0 where
  pub filename : Option Text
  pub metainfo : Option Text
  pub download_dir : Option Text
  pub labels : List Text
  pub bandwidth_priority : ℤ
  pub paused : Bool

pub record Parsed : Type 0 where
  pub name : Text
  pub size : Option ℕ
  pub file_count : Option ℕ

pub record NewTorrentOptions : Type 0 where
  pub labels : List Text
  pub size : Option ℕ
  pub file_count : Option ℕ
  pub meta : Option ℕ
  pub priority : ℤ
  pub paused : Bool

-- What `addTorrent` calls.
pub record Parts : Type 0 where
  pub query_of : Text → List (Text × Text)
  pub sha1 : Text → Text
  pub parse : Text → Parsed
  pub make : ℕ → Text → Text → Text → ℕ → NewTorrentOptions → TorrentDetail

abbrev in_range : ℕ → ℕ → ℕ → Bool
in_range lo hi c = leb lo c && leb c hi

abbrev is_hex : ℕ → Bool
is_hex c = in_range 48 57 c || in_range 97 102 c || in_range 65 70 c

-- `\w`
abbrev is_word : ℕ → Bool
is_word c = in_range 48 57 c || in_range 97 122 c || in_range 65 90 c || (c == 95)

abbrev starts_word : Text → Bool
starts_word [] = false
starts_word (c ∷ s) = is_word c

-- `HASH_RE.exec(s)?.[1] ?? ''`: the first 40 hexadecimal digits that are a word of their own.
unfoldable pub hash_in : Bool → Text → Text
hash_in in_word [] = []
hash_in in_word (c ∷ s) =
    let found = take 40 (c ∷ s) in
    let later = hash_in (is_word c) s in
    if not in_word
      && (length found == 40)
      && all is_hex found
      && not (starts_word (drop 40 (c ∷ s)))
    then found
    else later

-- `s.replace(/^.*\//, '')`: `best` is what is left behind the last slash of the first line so far.
unfoldable pub after_slashes : Text → Text → Text
after_slashes best [] = best
after_slashes best (c ∷ s) =
    let behind = after_slashes s s in
    let same_rest = after_slashes best s in
    if is_line_end c then best else if c == 47 then behind else same_rest

-- `s.replace(/\.torrent$/, '')`
abbrev pub without_ending : Text → Text
without_ending s =
    let n = length s - 8 in if text_eq (drop n s) (codes ".torrent") then take n s else s

abbrev pub after_question : Option ℕ → Text → Text
after_question none s = s
after_question (some i) s = drop (i + 1) s

-- What the request says of the torrent: the first part of `addTorrent`.
pub record Named : Type 0 where
  pub name : Text
  pub hash : Text
  pub size : Option ℕ
  pub file_count : Option ℕ
  pub meta : Option ℕ

abbrev of_magnet : Parts → Text → Named
of_magnet p filename =
    let q = p.query_of (after_question (index_of 63 filename) filename) in
    record {
      name = or_else (lookup (codes "dn") q) [];
      hash = lower (hash_in false (or_else (lookup (codes "xt") q) []));
      size = none;
      file_count = none;
      meta = some 0;
    }

abbrev of_metainfo : Parts → Text → Named
of_metainfo p b64 =
    let parsed = p.parse b64 in
    record {
      name = parsed.name;
      hash = p.sha1 b64;
      size = parsed.size;
      file_count = parsed.file_count;
      meta = none;
    }

abbrev of_name : Text → Named
of_name name = record { name = name; hash = []; size = none; file_count = none; meta = none }

abbrev or_metainfo : Parts → Option Text → Text → Named
or_metainfo p (some b64) filename = of_metainfo p b64
or_metainfo p none filename =
    of_name (if is_empty filename then [] else without_ending (after_slashes filename filename))

unfoldable pub named : Parts → AddArgs → Named
unfolding hash_in after_slashes starts_with index_of
named p args =
    let filename = or_else args.filename [] in
    if starts_with filename (codes "magnet:")
    then of_magnet p filename
    else or_metainfo p args.metainfo filename
