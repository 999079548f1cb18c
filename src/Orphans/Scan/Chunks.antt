-- ===== src/Orphans/Scan/Chunks.antt =====
-- How the answer is cut into chunks makes no difference to a scan.
use transmission_ui.Prelude.{
  ◌==◌, if◌then◌else◌, Bool-cases, Option-cases, length, append-nil, append_assoc, Text, codes, ℕ,
  zero, suc, ◌<◌, ◌≡◌, refl, sym, inl, inr, false, Option, none, some, List, [], ◌∷◌, ◌++◌, arith,
}
use transmission_ui.Orphans.Scan.{
  Progress, Message, ScanAnswer, failure, ScanEnd, raised, newline, cut_line, take_line, drain,
  scan_chunks, scan_orphans,
}

-- The complete lines of a text and what follows the last newline.
abbrev into_line : ℕ → List Text × Text → List Text × Text
into_line c ([], open_) = ([], c ∷ open_)
into_line c (line ∷ lines, open_) = ((c ∷ line) ∷ lines, open_)

unfoldable pub lines_of : Text → List Text × Text
lines_of [] = ([], [])
lines_of (c ∷ s) =
    let rest = lines_of s in if c == newline then ([] ∷ rest.0, rest.1) else into_line c rest

-- The chunks of an answer that is not refused.
abbrev pub streamed : ScanAnswer → Option (List Text)
streamed res = if ScanAnswer.ok res then ScanAnswer.body res else none

-- All chunks in one text.
abbrev pub concat : List Text → Text
concat [] = []
concat (s ∷ ss) = s ++ concat ss

cut_line-none : (s : Text) → cut_line s ≡ none → lines_of s ≡ ([], s)
unfolding cut_line lines_of
cut_line-none [] h = refl
cut_line-none (c ∷ s) h = elim (Bool-cases (c == newline)) [
  | inl cut ↦ ground arith
  | inr kept ↦ elim (Option-cases (cut_line s)) [
    | inl nothing ↦ rw (kept, cut_line-none s nothing) refl
    | inr (p, e) ↦ ground (arith, e, kept)
  ]
]

abbrev IsCut : Text → Text → Text → Type 0
IsCut s line rest =
    (lines_of s ≡ (line ∷ (lines_of rest).0, (lines_of rest).1)) × (length rest < length s)

cut_line-some : (s line rest : Text) → cut_line s ≡ some (line, rest) → IsCut s line rest
unfolding cut_line lines_of
cut_line-some [] line rest h = ground arith
cut_line-some (c ∷ s) line rest h = elim (Bool-cases (c == newline)) [
  | inl cut ↦
      let e : (line ≡ []) × (rest ≡ s) = ground arith in rw (e.0, e.1, cut) (refl, omega arith)
  | inr kept ↦ elim (Option-cases (cut_line s)) [
    | inl nothing ↦ ground arith
    | inr ((l, r), found_) ↦
        let e : (line ≡ c ∷ l) × (rest ≡ r) = ground arith in
        let (lines, less) = cut_line-some s l r found_ in
        rw (e.0, e.1, kept, lines) (refl, omega arith)
  ]
]

into_line-append :
    (c : ℕ) (p : List Text × Text) (t : Text)
    → (c == newline) ≡ false
    → into_line c (p.0 ++ (lines_of (p.1 ++ t)).0, (lines_of (p.1 ++ t)).1) ≡ (
      (into_line c p).0 ++ (lines_of ((into_line c p).1 ++ t)).0,
      (lines_of ((into_line c p).1 ++ t)).1,
    )
unfolding lines_of
into_line-append c ([], o) t kept = rw kept refl
into_line-append c (line ∷ lines, o) t kept = refl

lines_of-append :
    (s t : Text)
    → lines_of (s ++ t)
      ≡ ((lines_of s).0 ++ (lines_of ((lines_of s).1 ++ t)).0, (lines_of ((lines_of s).1 ++ t)).1)
unfolding lines_of
lines_of-append [] t = refl
lines_of-append (c ∷ s) t = elim (Bool-cases (c == newline)) [
  | inl cut ↦ rw (cut, lines_of-append s t) refl
  | inr kept ↦ rw (kept, lines_of-append s t) (into_line-append c (lines_of s) t kept)
]

into_line-open :
    (c : ℕ) (p : List Text × Text)
    → (c == newline) ≡ false
    → lines_of p.1 ≡ ([], p.1)
    → lines_of (into_line c p).1 ≡ ([], (into_line c p).1)
unfolding lines_of
into_line-open c ([], o) kept h = rw (kept, h) refl
into_line-open c (line ∷ lines, o) kept h = h

lines_of-open : (s : Text) → lines_of (lines_of s).1 ≡ ([], (lines_of s).1)
unfolding lines_of
lines_of-open [] = refl
lines_of-open (c ∷ s) = elim (Bool-cases (c == newline)) [
  | inl cut ↦ rw cut (lines_of-open s)
  | inr kept ↦ rw kept (into_line-open c (lines_of s) kept (lines_of-open s))
]

module _ (parse : Text → Option Message) where
  -- The lines one after the other, up to one that ends the scan.
  abbrev pub read_lines : List Text → List Progress → Option ScanEnd × List Progress
  read_lines [] log = (none, log)
  read_lines (line ∷ lines) log = elim (take_line parse line log).0 [
    | none ↦ read_lines lines (take_line parse line log).1
    | some e ↦ (some e, (take_line parse line log).1)
  ]

  -- A scan that none of the lines ends has no result.
  abbrev pub finish : Option ScanEnd × List Progress → ScanEnd × List Progress
  finish (none, log) = (raised (codes "the scan ended without a result"), log)
  finish (some e, log) = (e, log)

  -- What the inner loop leaves: it read the complete lines, and keeps what follows them.
  abbrev IsDrained : Text → List Progress → Option ScanEnd × (Text × List Progress) → Type 0
  IsDrained buf log r =
      (read_lines (lines_of buf).0 log ≡ (r.0, r.1.1)) × ((r.0 ≡ none) → r.1.0 ≡ (lines_of buf).1)

  drain-IsDrained :
      (f : ℕ) (buf : Text) (log : List Progress)
      → length buf < f
      → IsDrained buf log (drain parse f buf log)
  unfolding drain
  drain-IsDrained zero buf log h = elim h [ ]
  drain-IsDrained (suc f) buf log h = elim (Option-cases (cut_line buf)) [
    | inl nothing ↦ rw (nothing, drain, cut_line-none buf nothing) (refl, λ e. refl)
    | inr ((line, rest), e) ↦
        let (lines, less) = cut_line-some buf line rest e in
        elim (Option-cases (take_line parse line log).0) [
          | inl goes ↦
              rw (e, drain, lines, goes, read_lines)
                (drain-IsDrained f rest (take_line parse line log).1 (omega arith))
          | inr (x, ends) ↦ rw (e, drain, lines, ends, read_lines) (refl, λ q. ground arith)
        ]
  ]

  -- Reading on, unless the scan came to an end.
  abbrev resume : List Text → Option ScanEnd × List Progress → Option ScanEnd × List Progress
  resume ys (none, log) = read_lines ys log
  resume ys (some e, log) = (some e, log)

  read_lines-append :
      (xs ys : List Text) (log : List Progress)
      → read_lines (xs ++ ys) log ≡ resume ys (read_lines xs log)
  read_lines-append [] ys log = refl
  read_lines-append (x ∷ xs) ys log = elim (Option-cases (take_line parse x log).0) [
    | inl goes ↦ rw (goes, read_lines) (read_lines-append xs ys (take_line parse x log).1)
    | inr (e, ends) ↦ rw (ends, read_lines) refl
  ]

  -- What the scan comes to after the inner loop, given what it comes to from the buffer that is left.
  drained-lines :
      (chunks : List Text) (text : Text) (log : List Progress)
      (r : Option ScanEnd × (Text × List Progress))
      → IsDrained text log r
      → (lines_of r.1.0 ≡ ([], r.1.0)
          → scan_chunks parse chunks r.1.0 r.1.1
            ≡ finish (read_lines (lines_of (r.1.0 ++ concat chunks)).0 r.1.1))
      → (elim r.0 [ none ↦ scan_chunks parse chunks r.1.0 r.1.1 | some e ↦ (e, r.1.1) ])
        ≡ finish (read_lines (lines_of (text ++ concat chunks)).0 log)
  drained-lines chunks text log (none, (buf, calls)) (read, kept) ih =
      let left : buf ≡ (lines_of text).1 = kept refl in
      let own : lines_of buf ≡ ([], buf) = rw left (lines_of-open text) in
      rw
        (
          lines_of-append text (concat chunks),
          read_lines-append (lines_of text).0 (lines_of ((lines_of text).1 ++ concat chunks)).0 log,
          read,
          ← left,
        )
        (ih own)
  drained-lines chunks text log (some e, (buf, calls)) (read, kept) ih =
      rw
        (
          lines_of-append text (concat chunks),
          read_lines-append (lines_of text).0 (lines_of ((lines_of text).1 ++ concat chunks)).0 log,
          read,
        )
        refl

  scan_chunks-lines :
      (chunks : List Text) (buf : Text) (log : List Progress)
      → lines_of buf ≡ ([], buf)
      → scan_chunks parse chunks buf log
        ≡ finish (read_lines (lines_of (buf ++ concat chunks)).0 log)
  unfolding scan_chunks
  scan_chunks-lines [] buf log h = rw (append-nil buf, h) refl
  scan_chunks-lines (chunk ∷ chunks) buf log h =
      let text = buf ++ chunk in
      let r = drain parse (suc (length text)) text log in
      rw (sym (append_assoc buf chunk (concat chunks))) (
        drained-lines chunks text log r (drain-IsDrained (suc (length text)) text log (omega arith))
          (scan_chunks-lines chunks r.1.0 r.1.1))

  -- A scan ends as if it read the lines of the whole answer one after the other, with the same calls of
  -- `onProgress`, wherever the answer is cut into chunks; text after the last newline is not read. An answer that
  -- is refused or has no body ends it with the reason, and no line is read.
  pub scan_orphans_lem :
      (res : ScanAnswer)
      → scan_orphans parse res ≡ (elim (streamed res) [
        | none ↦ (raised (failure res), [])
        | some chunks ↦ finish (read_lines (lines_of (concat chunks)).0 [])
      ])
  unfolding scan_orphans lines_of
  scan_orphans_lem res = elim (Bool-cases (ScanAnswer.ok res)) [
    | inr refused ↦ rw refused refl
    | inl taken ↦ elim (Option-cases (ScanAnswer.body res)) [
      | inl empty ↦ rw (taken, empty) refl
      | inr (chunks, full) ↦ rw (taken, full) (scan_chunks-lines chunks [] [] refl)
    ]
  ]
