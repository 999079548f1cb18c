-- ===== src/Bencode/Total.antt =====
-- The decoder ends on every buffer.
use transmission_ui.Prelude.{
  ltb, ◌==◌, Bool-cases, Option-cases, length, length-drop, codes, ℕ, zero, suc, ◌+◌, ◌≤◌, ◌<◌, ◌≡◌,
  inl, inr, Option, some, List, [], ◌∷◌, arith,
}
use transmission_ui.Bencode.{
  Value, int, bytes, items, dict, Values, Pairs, Read, got, bad, exhausted, cut_at, digit, read_int,
  read_bytes, as_items, as_dict, put_item, put_pair, read_value, read_items, read_pairs, decode,
}

-- Reading ended, and took at least one byte if it gave a value.
abbrev pub IsRead : {A : Type 0} → ℕ → Read A → Type 0
IsRead n (got a rest) = length rest < n
IsRead n (bad what rest) = Unit {0}
IsRead n exhausted = ⊥

cut_at-shorter :
    (c : ℕ) (s text rest : List ℕ) → cut_at c s ≡ some (text, rest) → length rest < length s
unfolding cut_at
cut_at-shorter c [] text rest h = ground arith
cut_at-shorter c (d ∷ s) text rest h = elim (Bool-cases (d == c)) [
  | inl equal ↦ let e : s ≡ rest = ground arith in rw (← e) (omega arith)
  | inr other ↦ elim (Option-cases (cut_at c s)) [
    | inl nothing ↦ ground arith
    | inr ((l, r), found) ↦
        let e : r ≡ rest = ground arith in
        let less = cut_at-shorter c s l r found in rw (← e) (omega arith)
  ]
]

suc-IsRead : {A : Type 0} (n : ℕ) (r : Read A) → IsRead n r → IsRead (suc n) r
suc-IsRead n (got a rest) h = omega arith
suc-IsRead n (bad what rest) h = h
suc-IsRead n exhausted h = h

module _ {Num : Type 0} (number : List ℕ → Option Num) (size : List ℕ → Option ℕ) where
  read_int-IsRead : (s : List ℕ) → IsRead (suc (length s)) (read_int number size s)
  unfolding read_int
  read_int-IsRead s = elim (Option-cases (cut_at 101 s)) [
    | inl nothing ↦ rw (nothing, read_int) tt
    | inr ((text, rest), found) ↦ elim (Option-cases (number text)) [
      | inl nan ↦ rw (found, read_int, nan) tt
      | inr (n, e) ↦
          let less = cut_at-shorter 101 s text rest found in rw (found, read_int, e) (omega arith)
    ]
  ]

  read_bytes-IsRead : (c : ℕ) (s : List ℕ) → IsRead (suc (length s)) (read_bytes number size c s)
  unfolding read_bytes
  read_bytes-IsRead c s = elim (Option-cases (cut_at 58 (c ∷ s))) [
    | inl nothing ↦ rw (nothing, read_bytes) tt
    | inr ((text, rest), found) ↦
        let less = cut_at-shorter 58 (c ∷ s) text rest found in
        elim (Bool-cases (digit c)) [
          | inr alien ↦ rw (found, read_bytes, alien) tt
          | inl ten ↦ elim (Option-cases (size text)) [
            | inl nan ↦ rw (found, read_bytes, ten, nan) tt
            | inr (n, e) ↦ elim (Bool-cases (ltb (length rest) n)) [
              | inl over ↦ rw (found, read_bytes, ten, e, over) tt
              | inr fits ↦
                  rw (found, read_bytes, ten, e, fits) (omega (arith, length-drop n rest, less))
            ]
          ]
        ]
  ]

  as_items-IsRead : (n : ℕ) (r : Read (Values Num)) → IsRead n r → IsRead n (as_items number size r)
  as_items-IsRead n (got vs rest) h = h
  as_items-IsRead n (bad what rest) h = h
  as_items-IsRead n exhausted h = h

  as_dict-IsRead : (n : ℕ) (r : Read (Pairs Num)) → IsRead n r → IsRead n (as_dict number size r)
  as_dict-IsRead n (got ps rest) h = h
  as_dict-IsRead n (bad what rest) h = h
  as_dict-IsRead n exhausted h = h

  put_item-IsRead :
      (n k : ℕ) (v : Value Num) (r : Read (Values Num))
      → k ≤ n
      → IsRead k r
      → IsRead n (put_item number size v r)
  put_item-IsRead n k v (got vs rest) le h = omega arith
  put_item-IsRead n k v (bad what rest) le h = h
  put_item-IsRead n k v exhausted le h = h

  put_pair-IsRead :
      (n k : ℕ) (key : List ℕ) (v : Value Num) (r : Read (Pairs Num))
      → k ≤ n
      → IsRead k r
      → IsRead n (put_pair number size key v r)
  put_pair-IsRead n k key v (got vs rest) le h = omega arith
  put_pair-IsRead n k key v (bad what rest) le h = h
  put_pair-IsRead n k key v exhausted le h = h

  -- One round of a loop, given what its later rounds do.
  item-IsRead :
      (n : ℕ) (r : Read (Value Num)) (loop : List ℕ → Read (Values Num))
      → IsRead n r
      → ((rest : List ℕ) → length rest < n → IsRead (length rest) (loop rest))
      → IsRead n (elim r [
        | got v rest ↦ put_item number size v (loop rest)
        | bad what rest ↦ bad what rest
        | exhausted ↦ exhausted
      ])
  item-IsRead n (got v rest) loop h later =
      put_item-IsRead n (length rest) v (loop rest) (omega arith) (later rest h)
  item-IsRead n (bad what rest) loop h later = h
  item-IsRead n exhausted loop h later = h

  entry-IsRead :
      (n k : ℕ) (key : List ℕ) (r : Read (Value Num)) (loop : List ℕ → Read (Pairs Num))
      → k ≤ n
      → IsRead k r
      → ((rest : List ℕ) → length rest < n → IsRead (length rest) (loop rest))
      → IsRead n (elim r [
        | got v rest ↦ put_pair number size key v (loop rest)
        | bad what rest ↦ bad what rest
        | exhausted ↦ exhausted
      ])
  entry-IsRead n k key (got v rest) loop le h later =
      put_pair-IsRead n (length rest) key v (loop rest) (omega arith) (later rest (omega arith))
  entry-IsRead n k key (bad what rest) loop le h later = h
  entry-IsRead n k key exhausted loop le h later = h

  pair-IsRead :
      (n : ℕ) (r : Read (Value Num)) (value : List ℕ → Read (Value Num))
      (loop : List ℕ → Read (Pairs Num))
      → IsRead n r
      → ((rest : List ℕ) → length rest < n → IsRead (length rest) (value rest))
      → ((rest : List ℕ) → length rest < n → IsRead (length rest) (loop rest))
      → IsRead n (elim r [
        | got (bytes key) rest ↦ elim (value rest) [
          | got v more ↦ put_pair number size key v (loop more)
          | bad what more ↦ bad what more
          | exhausted ↦ exhausted
        ]
        | got (int m) rest ↦ bad (codes "dict key") rest
        | got (items vs) rest ↦ bad (codes "dict key") rest
        | got (dict ps) rest ↦ bad (codes "dict key") rest
        | bad what rest ↦ bad what rest
        | exhausted ↦ exhausted
      ])
  pair-IsRead n (got (bytes key) rest) value loop h first later =
      entry-IsRead n (length rest) key (value rest) loop (omega arith) (first rest h) later
  pair-IsRead n (got (int m) rest) value loop h first later = tt
  pair-IsRead n (got (items vs) rest) value loop h first later = tt
  pair-IsRead n (got (dict ps) rest) value loop h first later = tt
  pair-IsRead n (bad what rest) value loop h first later = h
  pair-IsRead n exhausted value loop h first later = h

  -- What enough fuel comes to for a value and for the two loops.
  ValuesRead : ℕ → Type 0
  ValuesRead f =
      (buf : List ℕ)
      → length buf + length buf < f
      → IsRead (length buf) (read_value number size f buf)

  ItemsRead : ℕ → Type 0
  ItemsRead f =
      (buf : List ℕ)
      → suc (length buf + length buf) < f
      → IsRead (length buf) (read_items number size f buf)

  PairsRead : ℕ → Type 0
  PairsRead f =
      (buf : List ℕ)
      → suc (length buf + length buf) < f
      → IsRead (length buf) (read_pairs number size f buf)

  value-IsRead : (f : ℕ) → ItemsRead f → PairsRead f → ValuesRead (suc f)
  unfolding read_value ValuesRead ItemsRead PairsRead
  value-IsRead f hi hp [] less = tt
  value-IsRead f hi hp (c ∷ s) less = elim (Bool-cases (c == 105)) [
    | inl i ↦ rw (i, read_value) (read_int-IsRead s)
    | inr other1 ↦ elim (Bool-cases (c == 108)) [
      | inl l ↦
          rw (other1, read_value, l)
            (as_items-IsRead _ (read_items number size f s) (suc-IsRead _ _ (hi s (omega arith))))
      | inr other2 ↦ elim (Bool-cases (c == 100)) [
        | inl d ↦
            rw (other1, read_value, other2, d)
              (as_dict-IsRead _ (read_pairs number size f s) (suc-IsRead _ _ (hp s (omega arith))))
        | inr other3 ↦ rw (other1, read_value, other2, other3) (read_bytes-IsRead c s)
      ]
    ]
  ]

  items-IsRead : (f : ℕ) → ValuesRead f → ItemsRead f → ItemsRead (suc f)
  unfolding read_value ValuesRead ItemsRead
  items-IsRead f hv hi [] less = tt
  items-IsRead f hv hi (c ∷ s) less = elim (Bool-cases (c == 101)) [
    | inl e ↦ rw (e, read_items) (omega arith)
    | inr other ↦
        rw (other, read_items)
          (item-IsRead (suc (length s)) (read_value number size f (c ∷ s))
            (read_items number size f) (hv (c ∷ s) (omega arith)) (λ rest h. hi rest (omega arith)))
  ]

  pairs-IsRead : (f : ℕ) → ValuesRead f → PairsRead f → PairsRead (suc f)
  unfolding read_value ValuesRead PairsRead
  pairs-IsRead f hv hp [] less = tt
  pairs-IsRead f hv hp (c ∷ s) less = elim (Bool-cases (c == 101)) [
    | inl e ↦ rw (e, read_pairs) (omega arith)
    | inr other ↦
        rw (other, read_pairs)
          (pair-IsRead (suc (length s)) (read_value number size f (c ∷ s))
            (read_value number size f) (read_pairs number size f) (hv (c ∷ s) (omega arith))
            (λ rest h. hv rest (omega arith)) (λ rest h. hp rest (omega arith)))
  ]

  all-IsRead : (f : ℕ) → ValuesRead f × ItemsRead f × PairsRead f
  unfolding ValuesRead ItemsRead PairsRead
  all-IsRead zero =
      ((λ buf less. elim less [ ]), (λ buf less. elim less [ ]), (λ buf less. elim less [ ]))
  all-IsRead (suc f) =
      let (hv, hi, hp) = all-IsRead f in
      (value-IsRead f hi hp, items-IsRead f hv hi, pairs-IsRead f hv hp)

  -- `decode` ends on every buffer, with a value or with what is invalid: its loops and its recursion take a
  -- byte in each round, and a value that it gives takes at least one.
  pub decode-IsRead : (buf : List ℕ) → IsRead (length buf) (decode number size buf)
  unfolding decode ValuesRead
  decode-IsRead buf = (all-IsRead (suc (length buf + length buf))).0 buf (omega arith)
