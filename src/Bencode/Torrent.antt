-- ===== src/Bencode/Torrent.antt =====
-- `parseTorrent` of ui/src/lib/bencode.ts. The numbers and `TextDecoder` are parameters. A value of another
-- kind than the source expects makes it throw a TypeError where it uses the value.
pub mod Tidy
use transmission_ui.Prelude.{
  if◌then◌else◌, Text, codes, text_eq, ℕ, Bool, false, Option, none, some, List, [], ◌∷◌, ◌++◌,
  arith,
}
use transmission_ui.Prelude.Keyed.{nat_eq, text_eq_inst, add_all}
use transmission_ui.Prelude.Split.{split, join, split_nonempty, join-split}
use transmission_ui.Bencode.{
  Value, int, bytes, items, dict, Values, nil, cons, Pairs, end, pair, Read, got, bad, exhausted,
  decode,
}

pub record File (Num : Type 0) : Type 0 where
  pub path : Text
  pub length : Option (Value Num)

pub record TorrentInfo (Num : Type 0) : Type 0 where
  pub name : Text
  pub files : List (File Num)
  -- `none` where a length is no number.
  pub total_size : Option Num
  pub announce : List Text
  pub comment : Option Text
  pub private_ : Bool

pub data Parsed (Num : Type 0) : Type 0 where
  torrent : TorrentInfo Num → Parsed Num
  not_torrent : Parsed Num
  invalid : Text → List ℕ → Parsed Num
  type_error : Parsed Num

-- The numbers of the browser, and `td.decode`.
pub record Platform (Num : Type 0) : Type 0 where
  pub number : List ℕ → Option Num
  pub size : List ℕ → Option ℕ
  pub plus : Num → Num → Num
  pub nought : Num
  pub is_nought : Num → Bool
  pub is_one : Num → Bool
  pub text : List ℕ → Text

module _ {Num : Type 0} (js : Platform Num) where
  -- A property of an object; the last one written counts.
  abbrev pub member : Text → Pairs Num → Option (Value Num)
  member k end = none
  member k (pair key v ps) = elim (member k ps) [
    | some w ↦ some w
    | none ↦ if text_eq (js.text key) k then some v else none
  ]

  -- `td.decode` of each; `none` stands for a TypeError.
  abbrev pub texts : Values Num → Option (List Text)
  texts nil = some []
  texts (cons (bytes b) vs) = elim (texts vs) [ none ↦ none | some ts ↦ some (js.text b ∷ ts) ]
  texts (cons (int n) vs) = none
  texts (cons (items ws) vs) = none
  texts (cons (dict ps) vs) = none

  -- What `map` or a loop makes of a value that should be a list of byte strings: the bytes of an empty
  -- string are no trouble.
  abbrev pub text_list : Option (Value Num) → Option (List Text)
  text_list (some (items vs)) = texts vs
  text_list (some (bytes [])) = some []
  text_list (some (bytes (c ∷ s))) = none
  text_list (some (int n)) = none
  text_list (some (dict ps)) = none
  text_list none = none

  abbrev pub file_of : Text → Value Num → Option (File Num)
  file_of name (dict f) = elim (text_list (member (codes "path") f)) [
    | none ↦ none
    | some parts ↦
        some (record { path = join b'/' (name ∷ parts); length = member (codes "length") f })
  ]
  file_of name (int n) = none
  file_of name (bytes b) = none
  file_of name (items vs) = none

  abbrev pub files_of : Text → Values Num → Option (List (File Num))
  files_of name nil = some []
  files_of name (cons v vs) = elim (file_of name v) [
    | none ↦ none
    | some f ↦ elim (files_of name vs) [ none ↦ none | some fs ↦ some (f ∷ fs) ]
  ]

  -- The texts of all tiers.
  abbrev pub tiers : Values Num → Option (List Text)
  tiers nil = some []
  tiers (cons v vs) = elim (text_list (some v)) [
    | none ↦ none
    | some us ↦ elim (tiers vs) [ none ↦ none | some more ↦ some (us ++ more) ]
  ]

  -- `if (v) td.decode(v)`, as the texts that this gives.
  abbrev pub if_text : Option (Value Num) → Option (List Text)
  if_text none = some []
  if_text (some (bytes b)) = some (js.text b ∷ [])
  if_text (some (int n)) = if js.is_nought n then some [] else none
  if_text (some (items vs)) = none
  if_text (some (dict ps)) = none

  abbrev pub announce_list : Option (Value Num) → Option (List Text)
  announce_list (some (items vs)) = tiers vs
  announce_list (some (bytes b)) = some []
  announce_list (some (int n)) = some []
  announce_list (some (dict ps)) = some []
  announce_list none = some []

  abbrev pub sum_from : Num → List (File Num) → Option Num
  sum_from a [] = some a
  sum_from a (f ∷ fs) = elim (File.length f) [
    | none ↦ none
    | some v ↦ elim v [
      | int n ↦ sum_from (js.plus a n) fs
      | bytes b ↦ none
      | items vs ↦ none
      | dict ps ↦ none
    ]
  ]

  abbrev pub says_one : Option (Value Num) → Bool
  says_one (some (int n)) = js.is_one n
  says_one (some (bytes b)) = false
  says_one (some (items vs)) = false
  says_one (some (dict ps)) = false
  says_one none = false

  abbrev pub first_text : List Text → Option Text
  first_text [] = none
  first_text (t ∷ ts) = some t

  -- What is made of the parts, any of which may have thrown.
  abbrev pub assemble :
      Text
      → Bool
      → Option (List (File Num))
      → Option (List Text)
      → Option (List Text)
      → Option (List Text)
      → Parsed Num
  assemble name private (some files) (some first) (some others) (some comment) = torrent (record {
    name = name;
    files = files;
    total_size = sum_from js.nought files;
    announce = add_all [] (first ++ others);
    comment = first_text comment;
    private_ = private;
  })
  assemble name private _ _ _ _ = type_error

  -- The one file of a torrent without a list of them.
  abbrev pub single : Text → Option (Value Num) → Option (Option (List (File Num)))
  single name (some (int n)) = some (some (record { path = name; length = some (int n) } ∷ []))
  single name (some (bytes b)) = none
  single name (some (items vs)) = none
  single name (some (dict ps)) = none
  single name none = none

  -- The files, or `none` where this is no torrent: `files` if it is a list, else `length`.
  abbrev pub file_list :
      Text → Option (Value Num) → Option (Value Num) → Option (Option (List (File Num)))
  file_list name (some (items vs)) len = some (files_of name vs)
  file_list name (some (int n)) len = single name len
  file_list name (some (bytes b)) len = single name len
  file_list name (some (dict ps)) len = single name len
  file_list name none len = single name len

  abbrev pub with_files :
      Pairs Num → Pairs Num → Text → Option (Option (List (File Num))) → Parsed Num
  with_files root info name none = not_torrent
  with_files root info name (some files) =
      assemble name (says_one (member (codes "private") info)) files
        (if_text (member (codes "announce") root))
        (announce_list (member (codes "announce-list") root))
        (if_text (member (codes "comment") root))

  abbrev pub with_name : Pairs Num → Pairs Num → Option (Value Num) → Parsed Num
  with_name root info (some (bytes b)) =
      with_files root info (js.text b)
        (file_list (js.text b) (member (codes "files") info) (member (codes "length") info))
  with_name root info (some (int n)) = not_torrent
  with_name root info (some (items vs)) = not_torrent
  with_name root info (some (dict ps)) = not_torrent
  with_name root info none = not_torrent

  abbrev pub with_info : Pairs Num → Option (Value Num) → Parsed Num
  with_info root (some (dict info)) = with_name root info (member (codes "name") info)
  with_info root (some (int n)) = not_torrent
  with_info root (some (bytes b)) = not_torrent
  with_info root (some (items vs)) = not_torrent
  with_info root none = not_torrent

  abbrev pub of_root : Read (Value Num) → Parsed Num
  of_root (bad what rest) = invalid what rest
  of_root exhausted = invalid [] []
  of_root (got (dict root) rest) = with_info root (member (codes "info") root)
  of_root (got (int n) rest) = not_torrent
  of_root (got (bytes b) rest) = not_torrent
  of_root (got (items vs) rest) = not_torrent

  unfoldable pub parse_torrent : List ℕ → Parsed Num
  unfolding decode
  parse_torrent buf = of_root (decode js.number js.size buf)
