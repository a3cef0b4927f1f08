-- ===== src/Inflate/Huffman.antt =====
-- src/inflate.cpp, `Huffman`, `build` and `decode`: canonical code tables.
pub mod Decode
pub mod Build
use re_pico.Base.{
  ℕ, zero, suc, ◌+◌, ◌-◌, List, [], ◌∷◌, Bool, true, false, bit_or, u16, ◌<<◌, ltb, ◌==◌,
  if◌then◌else◌, replicate,
}
use re_pico.Base.Run.{Run, ok, fails, fault, ◌>>=◌, read, write}
use re_pico.Inflate.Reader.{BitReader, get_bits}

abbrev pub max_bits : ℕ
max_bits = 15

-- `count[len]` symbols have a code of `len` bits; `symbol` has the symbols in code order.
pub record Huffman : Type 0 where
  pub count : List ℕ
  pub symbol : List ℕ

-- The four loops of `build`.
unfoldable pub clear : ℕ → ℕ → List ℕ → Run (List ℕ)
clear zero len count = ok count
clear (suc n) len count = do count' ← write count len 0; clear n (len + 1) count'

unfoldable pub tally : List ℕ → List ℕ → Run (List ℕ)
tally [] count = ok count
tally (len ∷ rest) count = do
  c ← read count len
  count' ← write count len (u16 (c + 1))
  tally rest count'

unfoldable pub offset_loop : ℕ → ℕ → List ℕ → List ℕ → Run (List ℕ)
offset_loop zero len count offsets = ok offsets
offset_loop (suc n) len count offsets = do
  o ← read offsets len
  c ← read count len
  offsets' ← write offsets (len + 1) (u16 (o + c))
  offset_loop n (len + 1) count offsets'

unfoldable pub place : List ℕ → ℕ → List ℕ → List ℕ → Run (List ℕ)
place [] sym offsets symbol = ok symbol
place (len ∷ rest) sym offsets symbol = elim (len == 0) [
  | true ↦ place rest (sym + 1) offsets symbol
  | false ↦ do
    o ← read offsets len
    symbol' ← write symbol o (u16 sym)
    offsets' ← write offsets len (u16 (o + 1))
    place rest (sym + 1) offsets' symbol'
]

unfoldable pub build : Huffman → List ℕ → Run Huffman
build h lengths = do
  zeroed ← clear (max_bits + 1) 0 h.count
  count ← tally lengths zeroed
  started ← write (replicate (max_bits + 1) 0) 1 0
  offsets ← offset_loop (max_bits - 1) 1 count started
  symbol ← place lengths 0 offsets h.symbol
  ok (record { count = count; symbol = symbol })

-- The loop of `decode`, with the rounds left. The `i32` variables stay small and not negative:
-- `code - count < first` is written without the subtraction, and a negative index is a fault.
unfoldable pub decode_loop : ℕ → ℕ → BitReader → Huffman → ℕ → ℕ → ℕ → Run (ℕ × BitReader)
decode_loop zero len r h code first index = fails
decode_loop (suc n) len r h code first index = do
  (bit, r') ← get_bits r 1
  let code' = bit_or code bit
  count ← read h.count len
  elim (ltb code' (first + count)) [
    | true ↦
        if ltb code' first
        then fault
        else do sym ← read h.symbol (index + (code' - first)); ok (sym, r')
    | false ↦ decode_loop n (len + 1) r' h (code' << 1) ((first + count) << 1) (index + count)
  ]

unfoldable pub decode : BitReader → Huffman → Run (ℕ × BitReader)
decode r h = decode_loop max_bits 1 r h 0 0 0
