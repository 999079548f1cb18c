-- ===== src/Bencode/Torrent/Tidy.antt =====
-- What a parsed torrent is like.
use transmission_ui.Prelude.{
  Option-cases, append-nil, All, Text, codes, starts_with, starts_with-append, ℕ, ◌≡◌, subst, inl,
  inr, Bool, true, Option, none, some, List, [], ◌∷◌, ◌++◌,
}
use transmission_ui.Prelude.Sets.{add_all-Nodup}
use transmission_ui.Prelude.Keyed.{nat_eq, text_eq_inst, Nodup}
use transmission_ui.Prelude.Split.{join}
use transmission_ui.Bencode.{
  Value, int, bytes, items, dict, Values, nil, cons, Pairs, Read, got, bad, exhausted, decode,
}
use transmission_ui.Bencode.Torrent.{
  File, Parsed, torrent, not_torrent, invalid, type_error, Platform, member, text_list, file_of,
  files_of, if_text, announce_list, says_one, assemble, single, file_list, with_files, with_name,
  with_info, of_root, parse_torrent,
}

starts_with_self : (s : Text) → starts_with s s ≡ true
starts_with_self s =
    subst (λ (t : Text). starts_with t s ≡ true) (append-nil s) (starts_with-append s [])

join-starts : (name : Text) (parts : List Text) → starts_with (join b'/' (name ∷ parts)) name ≡ true
unfolding join
join-starts name [] = starts_with_self name
join-starts name (p ∷ ps) = starts_with-append name (b'/' ∷ join b'/' (p ∷ ps))

module _ {Num : Type 0} (js : Platform Num) where
  -- Every file stands under the torrent's name.
  abbrev pub IsUnder : Text → List (File Num) → Type 0
  IsUnder name fs = All (λ f. starts_with (File.path f) name ≡ true) fs

  abbrev UnderAll : Text → Option (List (File Num)) → Type 0
  UnderAll name none = Unit {0}
  UnderAll name (some fs) = IsUnder name fs

  abbrev UnderBoth : Text → Option (Option (List (File Num))) → Type 0
  UnderBoth name none = Unit {0}
  UnderBoth name (some o) = UnderAll name o

  -- No announce URL twice, and all files under the name.
  abbrev pub IsTidy : Parsed Num → Type 0
  IsTidy (torrent t) = Nodup t.announce × IsUnder t.name t.files
  IsTidy not_torrent = Unit {0}
  IsTidy (invalid what rest) = Unit {0}
  IsTidy type_error = Unit {0}

  abbrev UnderOne : Text → Option (File Num) → Type 0
  UnderOne name none = Unit {0}
  UnderOne name (some f) = starts_with f.path name ≡ true

  file_of-under : (name : Text) (v : Value Num) → UnderOne name (file_of js name v)
  file_of-under name (dict f) = elim (Option-cases (text_list js (member js (codes "path") f))) [
    | inl nothing ↦ rw (nothing, file_of) tt
    | inr (parts, e) ↦ rw (e, file_of) (join-starts name parts)
  ]
  file_of-under name (int n) = tt
  file_of-under name (bytes b) = tt
  file_of-under name (items vs) = tt

  files_of-under : (name : Text) (vs : Values Num) → UnderAll name (files_of js name vs)
  files_of-under name nil = tt
  files_of-under name (cons v vs) = elim (Option-cases (file_of js name v)) [
    | inl nothing ↦ rw (nothing, files_of) tt
    | inr (f, e) ↦ elim (Option-cases (files_of js name vs)) [
      | inl nothing ↦ rw (e, files_of, nothing) tt
      | inr (fs, e2) ↦
          rw (e, files_of, e2)
            (
              subst (UnderOne name) e (file_of-under name v),
              subst (UnderAll name) e2 (files_of-under name vs),
            )
    ]
  ]

  single-under : (name : Text) (v : Option (Value Num)) → UnderBoth name (single js name v)
  single-under name (some (int n)) = (starts_with_self name, tt)
  single-under name (some (bytes b)) = tt
  single-under name (some (items vs)) = tt
  single-under name (some (dict ps)) = tt
  single-under name none = tt

  file_list-under :
      (name : Text) (v len : Option (Value Num)) → UnderBoth name (file_list js name v len)
  file_list-under name (some (items vs)) len = files_of-under name vs
  file_list-under name (some (int n)) len = single-under name len
  file_list-under name (some (bytes b)) len = single-under name len
  file_list-under name (some (dict ps)) len = single-under name len
  file_list-under name none len = single-under name len

  assemble-IsTidy :
      (name : Text) (private : Bool) (files : Option (List (File Num)))
      (first others comment : Option (List Text))
      → UnderAll name files
      → IsTidy (assemble js name private files first others comment)
  assemble-IsTidy name private none first others comment h = tt
  assemble-IsTidy name private (some fs) none others comment h = tt
  assemble-IsTidy name private (some fs) (some us) none comment h = tt
  assemble-IsTidy name private (some fs) (some us) (some vs) none h = tt
  assemble-IsTidy name private (some fs) (some us) (some vs) (some c) h =
      (add_all-Nodup [] (us ++ vs) tt, h)

  with_files-IsTidy :
      (root info : Pairs Num) (name : Text) (o : Option (Option (List (File Num))))
      → UnderBoth name o
      → IsTidy (with_files js root info name o)
  with_files-IsTidy root info name none h = tt
  with_files-IsTidy root info name (some fs) h =
      assemble-IsTidy name (says_one js (member js (codes "private") info)) fs
        (if_text js (member js (codes "announce") root))
        (announce_list js (member js (codes "announce-list") root))
        (if_text js (member js (codes "comment") root)) h

  with_name-IsTidy :
      (root info : Pairs Num) (v : Option (Value Num)) → IsTidy (with_name js root info v)
  with_name-IsTidy root info (some (bytes b)) = with_files-IsTidy root info (js.text b) _ (
      file_list-under (js.text b) (member js (codes "files") info)
        (member js (codes "length") info))
  with_name-IsTidy root info (some (int n)) = tt
  with_name-IsTidy root info (some (items vs)) = tt
  with_name-IsTidy root info (some (dict ps)) = tt
  with_name-IsTidy root info none = tt

  with_info-IsTidy : (root : Pairs Num) (v : Option (Value Num)) → IsTidy (with_info js root v)
  with_info-IsTidy root (some (dict info)) =
      with_name-IsTidy root info (member js (codes "name") info)
  with_info-IsTidy root (some (int n)) = tt
  with_info-IsTidy root (some (bytes b)) = tt
  with_info-IsTidy root (some (items vs)) = tt
  with_info-IsTidy root none = tt

  of_root-IsTidy : (r : Read (Value Num)) → IsTidy (of_root js r)
  of_root-IsTidy (bad what rest) = tt
  of_root-IsTidy exhausted = tt
  of_root-IsTidy (got (dict root) rest) = with_info-IsTidy root (member js (codes "info") root)
  of_root-IsTidy (got (int n) rest) = tt
  of_root-IsTidy (got (bytes b) rest) = tt
  of_root-IsTidy (got (items vs) rest) = tt

  -- A torrent that `parseTorrent` gives lists no announce URL twice, and the path of each of its files
  -- begins with the torrent's name.
  pub parse_torrent-IsTidy : (buf : List ℕ) → IsTidy (parse_torrent js buf)
  unfolding parse_torrent
  parse_torrent-IsTidy buf = of_root-IsTidy (decode js.number js.size buf)
