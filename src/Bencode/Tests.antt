-- ===== src/Bencode/Tests.antt =====
-- The decoder on small buffers, with decimal numbers.
use transmission_ui.Prelude.{codes, ℕ, ◌≡◌, refl, Option, List, []}
use transmission_ui.Prelude.Decimal.{read_from}
use transmission_ui.Bencode.{decode}
use transmission_ui.Bencode.{int, bytes, items, dict, nil, cons, end, pair, got, bad}
use transmission_ui.Bencode.Total.{IsRead, decode-IsRead}
use transmission_ui.Prelude.{text_eq, false, none, some, [], ◌∷◌, ◌==◌, ◌+◌, refl, ◌≡◌}
use transmission_ui.Bencode.Torrent.{Platform, torrent, parse_torrent}
use transmission_ui.Bencode.Torrent.Tidy.{IsTidy, parse_torrent-IsTidy}

abbrev natural : List ℕ → Option ℕ
natural s = read_from 0 s

decoded_dict :
    decode natural natural (codes "d1:xli12e3:abcee")
    ≡ got (dict (pair (codes "x") (items (cons (int 12) (cons (bytes (codes "abc")) nil))) end)) []
unfolding decode read_from
decoded_dict = refl

decoded_short : decode natural natural (codes "5:abc") ≡ bad (codes "string length") (codes "5:abc")
unfolding decode read_from
decoded_short = refl

decode-IsRead_example : IsRead 7 (decode natural natural (codes "li12ee "))
decode-IsRead_example = decode-IsRead natural natural (codes "li12ee ")

-- Decimal numbers, and bytes as the texts they are in ASCII.
abbrev plain : Platform ℕ
plain = record {
  number = natural;
  size = natural;
  plus = ◌+◌;
  nought = 0;
  is_nought = λ n. n == 0;
  is_one = λ n. n == 1;
  text = λ b. b;
}

abbrev small : List ℕ
small = codes "d8:announce1:u4:infod6:lengthi5e4:name1:nee"

small_parsed :
    parse_torrent plain small
    ≡ torrent (record {
      name = codes "n";
      files = record { path = codes "n"; length = some (int 5) } ∷ [];
      total_size = some 5;
      announce = codes "u" ∷ [];
      comment = none;
      private_ = false;
    })
unfolding parse_torrent read_from text_eq
small_parsed = refl

parse_torrent-IsTidy_example : IsTidy plain (parse_torrent plain small)
parse_torrent-IsTidy_example = parse_torrent-IsTidy plain small
