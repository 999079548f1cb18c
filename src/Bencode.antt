-- ===== src/Bencode.antt =====
-- `decode` of ui/src/lib/bencode.ts: the decoder of a .torrent file. A buffer is what follows the position
-- `i`. The numbers of the browser are a parameter: `number` reads a slice as `Number` does, with `none` for
-- NaN, and `size` does so where that is a natural number.
pub mod Total
pub mod Torrent
mod Tests
use transmission_ui.Prelude.{
  ltb, leb, ◌==◌, if◌then◌else◌, length, take, drop, Text, codes, ℕ, zero, suc, ◌+◌, Bool, true,
  false, not, ◌&&◌, Option, none, some, List, [], ◌∷◌, arith,
}

-- The values; the keys of a dictionary are the bytes that the source decodes, in their order.
mutual
  pub data Value (Num : Type 0) : Type 0 where
    int : Num → Value Num
    bytes : List ℕ → Value Num
    items : Values Num → Value Num
    dict : Pairs Num → Value Num

  pub data Values (Num : Type 0) : Type 0 where
    nil : Values Num
    cons : Value Num → Values Num → Values Num

  pub data Pairs (Num : Type 0) : Type 0 where
    end : Pairs Num
    pair : List ℕ → Value Num → Pairs Num → Pairs Num

-- What reading comes to: a value and what follows it, or what is invalid and where.
pub data Read (A : Type 0) : Type 0 where
  got : A → List ℕ → Read A
  bad : Text → List ℕ → Read A
  exhausted : Read A

-- `buf.indexOf(c, i)`, as what stands before it and behind it.
unfoldable pub cut_at : ℕ → List ℕ → Option (List ℕ × List ℕ)
cut_at c [] = none
cut_at c (d ∷ s) =
    let later = cut_at c s in
    if d == c then some ([], s) else elim later [ none ↦ none | some p ↦ some (d ∷ p.0, p.1) ]

abbrev pub digit : ℕ → Bool
digit c = leb 48 c && leb c 57

module _ {Num : Type 0} (number : List ℕ → Option Num) (size : List ℕ → Option ℕ) where
  -- `i<int>e`, behind the i; errors stand at the i.
  unfoldable pub read_int : List ℕ → Read (Value Num)
  unfolding cut_at
  read_int s = elim (cut_at 101 s) [
    | none ↦ bad (codes "unterminated int") (105 ∷ s)
    | some (text, rest) ↦ elim (number text) [
      | none ↦ bad (codes "int") (105 ∷ s)
      | some n ↦ got (int n) rest
    ]
  ]

  -- `<len>:<bytes>`
  unfoldable pub read_bytes : ℕ → List ℕ → Read (Value Num)
  unfolding cut_at
  read_bytes c s = elim (cut_at 58 (c ∷ s)) [
    | none ↦ bad (codes "string") (c ∷ s)
    | some (text, rest) ↦ if not (digit c) then bad (codes "string") (c ∷ s) else elim (size text) [
      | none ↦ bad (codes "string length") (c ∷ s)
      | some n ↦
          if ltb (length rest) n
          then bad (codes "string length") (c ∷ s)
          else got (bytes (take n rest)) (drop n rest)
    ]
  ]

  abbrev pub as_items : Read (Values Num) → Read (Value Num)
  as_items (got vs rest) = got (items vs) rest
  as_items (bad what rest) = bad what rest
  as_items exhausted = exhausted

  abbrev pub as_dict : Read (Pairs Num) → Read (Value Num)
  as_dict (got ps rest) = got (dict ps) rest
  as_dict (bad what rest) = bad what rest
  as_dict exhausted = exhausted

  abbrev pub put_item : Value Num → Read (Values Num) → Read (Values Num)
  put_item v (got vs rest) = got (cons v vs) rest
  put_item v (bad what rest) = bad what rest
  put_item v exhausted = exhausted

  abbrev pub put_pair : List ℕ → Value Num → Read (Pairs Num) → Read (Pairs Num)
  put_pair k v (got ps rest) = got (pair k v ps) rest
  put_pair k v (bad what rest) = bad what rest
  put_pair k v exhausted = exhausted

  -- `next`, and the loops of a list and of a dictionary behind their first byte, on fuel.
  unfoldable mutual
    unfolding read_int read_bytes

    pub read_value : ℕ → List ℕ → Read (Value Num)
    read_value zero buf = exhausted
    read_value (suc f) [] = bad (codes "unexpected end") []
    read_value (suc f) (c ∷ s) = if c == 105 then read_int s else elim (c == 108) [
      | true ↦ as_items (read_items f s)
      | false ↦ elim (c == 100) [ true ↦ as_dict (read_pairs f s) | false ↦ read_bytes c s ]
    ]

    pub read_items : ℕ → List ℕ → Read (Values Num)
    read_items zero buf = exhausted
    read_items (suc f) [] = bad (codes "unterminated list") []
    read_items (suc f) (c ∷ s) = elim (c == 101) [
      | true ↦ got nil s
      | false ↦ elim (read_value f (c ∷ s)) [
        | got v rest ↦ put_item v (read_items f rest)
        | bad what rest ↦ bad what rest
        | exhausted ↦ exhausted
      ]
    ]

    pub read_pairs : ℕ → List ℕ → Read (Pairs Num)
    read_pairs zero buf = exhausted
    read_pairs (suc f) [] = bad (codes "unterminated dict") []
    read_pairs (suc f) (c ∷ s) = elim (c == 101) [
      | true ↦ got end s
      | false ↦ elim (read_value f (c ∷ s)) [
        | got (bytes k) rest ↦ elim (read_value f rest) [
          | got v more ↦ put_pair k v (read_pairs f more)
          | bad what more ↦ bad what more
          | exhausted ↦ exhausted
        ]
        | got (int n) rest ↦ bad (codes "dict key") rest
        | got (items vs) rest ↦ bad (codes "dict key") rest
        | got (dict ps) rest ↦ bad (codes "dict key") rest
        | bad what rest ↦ bad what rest
        | exhausted ↦ exhausted
      ]
    ]

  -- `decode`: the fuel is twice the length and one; the rest of the buffer is not looked at.
  unfoldable pub decode : List ℕ → Read (Value Num)
  unfolding read_value
  decode buf = read_value (suc (length buf + length buf)) buf
