-- ===== src/Orphans/Tests.antt =====
-- A scan's answer in chunks that cut its lines.
use transmission_ui.Prelude.{
  true, false, if◌then◌else◌, Text, codes, text_eq, ◌≡◌, refl, Option, none, some, List, [], ◌∷◌,
  ◌++◌,
}
use transmission_ui.Prelude.Decimal.{show}
use transmission_ui.Orphans.{OrphanScan}
use transmission_ui.Orphans.Scan.{Message, ScanAnswer, found, raised, scan_orphans}
use transmission_ui.Orphans.Scan.Chunks.{lines_of, concat, read_lines, finish, scan_orphans_lem}

abbrev empty_scan : OrphanScan
empty_scan = record {
  scan_id = codes "s";
  at = 0;
  took_ms = 1;
  looked = 7;
  hidden_kept = 0;
  warnings = none;
  entries = [];
}

-- A reader of two messages.
abbrev reader : Text → Option Message
reader s =
    if text_eq s (codes "walk")
    then some (record {
      progress = some (record { looked = 7; path = codes "/d" });
      result = none;
      error = none;
    })
    else if text_eq s (codes "done")
    then some (record { progress = none; result = some empty_scan; error = none })
    else none

abbrev chunks : List Text
chunks = codes "wa" ∷ (codes "lk" ++ 10 ∷ codes " do") ∷ (codes "ne" ++ 10 ∷ codes "x") ∷ []

abbrev answer : ScanAnswer
answer = record { ok = true; status = 200; error = none; body = some chunks }

abbrev busy : ScanAnswer
busy = record { ok = false; status = 423; error = none; body = some chunks }

scan_of_chunks :
    scan_orphans reader answer ≡ (found empty_scan, record { looked = 7; path = codes "/d" } ∷ [])
unfolding scan_orphans text_eq
scan_of_chunks = refl

scan_of_busy : scan_orphans reader busy ≡ (raised (codes "HTTP 423"), [])
unfolding scan_orphans show
scan_of_busy = refl

scan_orphans_example :
    scan_orphans reader answer ≡ finish reader (read_lines reader (lines_of (concat chunks)).0 [])
scan_orphans_example = scan_orphans_lem reader answer
