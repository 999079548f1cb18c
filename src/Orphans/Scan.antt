-- ===== src/Orphans/Scan.antt =====
-- `scanOrphans` of ui/src/api/orphans.ts: the streamed answer of a scan, as the texts that its chunks
-- decode to. `JSON.parse` of a line is a parameter: a message, or `none` where reading it throws.
pub mod Chunks
use transmission_ui.Prelude.{
  ◌==◌, if◌then◌else◌, length, Text, codes, is_empty, ℕ, zero, suc, Bool, Option, none, some, List,
  [], ◌∷◌, ◌++◌, arith,
}
use transmission_ui.Prelude.Spaces.{trim}
use transmission_ui.Prelude.Decimal.{show}
use transmission_ui.Orphans.{OrphanChild, OrphanKind, file, dir, symlink, state, Orphan, OrphanScan}

pub record Progress : Type 0 where
  pub looked : ℕ
  pub path : Text

pub record Message : Type 0 where
  pub progress : Option Progress
  pub result : Option OrphanScan
  pub error : Option Text

-- What `scanOrphans` reads of the response: `error` is the member of that name when `res.json()` reads and it is
-- a text, `body` the texts that its chunks decode to.
pub record ScanAnswer : Type 0 where
  pub ok : Bool
  pub status : ℕ
  pub error : Option Text
  pub body : Option (List Text)

-- `failure`
abbrev pub failure : ScanAnswer → Text
failure res = elim (ScanAnswer.error res) [
  | none ↦ codes "HTTP " ++ show (ScanAnswer.status res)
  | some e ↦ if is_empty e then codes "HTTP " ++ show (ScanAnswer.status res) else e
]

pub data ScanEnd : Type 0 where
  found : OrphanScan → ScanEnd
  raised : Text → ScanEnd
  unreadable : ScanEnd

abbrev pub newline : ℕ
newline = 10

abbrev pub push_to : ℕ → Option (Text × Text) → Option (Text × Text)
push_to c none = none
push_to c (some (line, rest)) = some (c ∷ line, rest)

-- `buf.slice(0, nl)` and `buf.slice(nl + 1)` for the first newline.
unfoldable pub cut_line : Text → Option (Text × Text)
cut_line [] = none
cut_line (c ∷ s) = let rest = cut_line s in if c == newline then some ([], s) else push_to c rest

abbrev pub logged : Message → List Progress → List Progress
logged msg log = elim (Message.progress msg) [ none ↦ log | some p ↦ log ++ p ∷ [] ]

-- What a message ends the scan with, if it does.
abbrev pub ends_with : Option Text → Option OrphanScan → Option ScanEnd
ends_with none none = none
ends_with none (some scan) = some (found scan)
ends_with (some e) none = if is_empty e then none else some (raised e)
ends_with (some e) (some scan) = if is_empty e then some (found scan) else some (raised e)

module _ (parse : Text → Option Message) where
  -- One line, with the calls of `onProgress` so far.
  unfoldable pub take_line : Text → List Progress → Option ScanEnd × List Progress
  take_line line log = if is_empty (trim line) then (none, log) else elim (parse (trim line)) [
    | none ↦ (some unreadable, log)
    | some msg ↦ (ends_with (Message.error msg) (Message.result msg), logged msg log)
  ]

  -- The inner `while` loop, on fuel: the end if it comes to one, the buffer, the calls.
  unfoldable pub drain : ℕ → Text → List Progress → Option ScanEnd × (Text × List Progress)
  unfolding cut_line take_line
  drain zero buf log = (none, (buf, log))
  drain (suc f) buf log = elim (cut_line buf) [
    | none ↦ (none, (buf, log))
    | some (line, rest) ↦ elim (take_line line log).0 [
      | none ↦ drain f rest (take_line line log).1
      | some e ↦ (some e, (rest, (take_line line log).1))
    ]
  ]

  -- The outer loop over the chunks; a round of the inner loop takes a newline off, so the length of the
  -- buffer is fuel enough.
  unfoldable pub scan_chunks : List Text → Text → List Progress → ScanEnd × List Progress
  unfolding drain
  scan_chunks [] buf log = (raised (codes "the scan ended without a result"), log)
  scan_chunks (chunk ∷ chunks) buf log =
      let (end, (rest, calls)) = drain (suc (length (buf ++ chunk))) (buf ++ chunk) log in
      elim end [ none ↦ scan_chunks chunks rest calls | some e ↦ (e, calls) ]

  -- `scanOrphans`
  unfoldable pub scan_orphans : ScanAnswer → ScanEnd × List Progress
  unfolding scan_chunks
  scan_orphans res =
      if ScanAnswer.ok res
      then elim (ScanAnswer.body res) [
        | none ↦ (raised (failure res), [])
        | some chunks ↦ scan_chunks chunks [] []
      ]
      else (raised (failure res), [])
