-- ===== src/Inflate/Blocks.antt =====
-- src/inflate.cpp, the three kinds of block and `inflate`.
pub mod Safe
pub mod Total
use re_pico.Base.{
  ℕ, zero, suc, ◌+◌, ◌-◌, ◌*◌, List, [], ◌∷◌, ◌++◌, true, false, bit_or, u8, u32, ◌<<◌, ltb, leb,
  ◌==◌, ◌&&◌, not, if◌then◌else◌, length, replicate, take, drop,
}
use re_pico.Base.Run.{Run, ok, fails, out_of_fuel, ◌>>=◌, ensure, read, write}
use re_pico.Inflate.Reader.{BitReader, get_bits}
use re_pico.Inflate.Huffman.{Huffman, max_bits, build, decode}
use re_pico.Inflate.Codes.{State, max_lcodes, max_dcodes, inflate_codes}

abbrev no_counts : List ℕ
no_counts = replicate (max_bits + 1) 0

-- A table for these lengths, over fresh arrays with room for `room` symbols.
unfoldable pub fresh_table : ℕ → List ℕ → Run Huffman
fresh_table room lengths = build (record { count = no_counts; symbol = replicate room 0 }) lengths

abbrev pub fixed_lengths : List ℕ
fixed_lengths = replicate 144 8 ++ replicate 112 9 ++ replicate 24 7 ++ replicate 8 8

abbrev pub fixed_dist_lengths : List ℕ
fixed_dist_lengths = replicate max_dcodes 5

unfoldable pub inflate_fixed : ℕ → State → Run State
inflate_fixed fuel s = do
  lit ← fresh_table 288 fixed_lengths
  dist ← fresh_table max_dcodes fixed_dist_lengths
  inflate_codes fuel s lit dist

-- The order in which the lengths of the code-length code come.
abbrev pub order : List ℕ
order = 16 ∷ 17 ∷ 18 ∷ 0 ∷ 8 ∷ 7 ∷ 9 ∷ 6 ∷ 10 ∷ 5 ∷ 11 ∷ 4 ∷ 12 ∷ 3 ∷ 13 ∷ 2 ∷ 14 ∷ 1 ∷ 15 ∷ []

-- The loop that reads `ncode` lengths of three bits, with the rounds left.
unfoldable pub code_lengths : ℕ → ℕ → BitReader → List ℕ → Run (List ℕ × BitReader)
code_lengths zero i r cl_lengths = ok (cl_lengths, r)
code_lengths (suc n) i r cl_lengths = do
  (v, r') ← get_bits r 3
  at ← read order i
  cl_lengths' ← write cl_lengths at (u8 v)
  code_lengths n (i + 1) r' cl_lengths'

unfoldable pub repeat : ℕ → ℕ → List ℕ → ℕ → Run (List ℕ × ℕ)
repeat zero value lengths idx = ok (lengths, idx)
repeat (suc n) value lengths idx = do
  lengths' ← write lengths idx value
  repeat n value lengths' (idx + 1)

-- What a code-length symbol from 16 on stands for: the value, how often, and the reader behind it.
unfoldable pub run_length : BitReader → List ℕ → ℕ → ℕ → Run (ℕ × ℕ × BitReader)
run_length r lengths idx sym =
    if sym == 16
    then (do
      _ ← ensure (not (idx == 0))
      value ← read lengths (idx - 1)
      (n, r') ← get_bits r 2
      ok (value, 3 + n, r'))
    else if sym == 17
    then (do (n, r') ← get_bits r 3; ok (0, 3 + n, r'))
    else (do (n, r') ← get_bits r 7; ok (0, 11 + n, r'))

-- The loop over the literal, length and distance code lengths. A round writes one at least, so
-- `total` rounds are enough.
unfoldable pub length_loop : ℕ → BitReader → Huffman → ℕ → List ℕ → ℕ → Run (List ℕ × BitReader)
length_loop zero r cl total lengths idx = if ltb idx total then out_of_fuel else ok (lengths, r)
length_loop (suc fuel) r cl total lengths idx = elim (ltb idx total) [
  | true ↦ do
    (sym, r1) ← decode r cl
    elim (ltb sym 16) [
      | true ↦ do
        lengths' ← write lengths idx (u8 sym)
        length_loop fuel r1 cl total lengths' (idx + 1)
      | false ↦ do
        (value, count, r2) ← run_length r1 lengths idx sym
        _ ← ensure (leb (idx + count) total)
        (lengths', idx') ← repeat count value lengths idx
        length_loop fuel r2 cl total lengths' idx'
    ]
  | false ↦ ok (lengths, r)
]

unfoldable pub inflate_dynamic : ℕ → State → Run State
inflate_dynamic fuel s = do
  (hlit, r1) ← get_bits s.r 5
  (hdist, r2) ← get_bits r1 5
  (hclen, r3) ← get_bits r2 4
  let nlit = hlit + 257
  let ndist = hdist + 1
  let ncode = hclen + 4
  _ ← ensure (leb nlit max_lcodes && leb ndist max_dcodes)
  (cl_lengths, r4) ← code_lengths ncode 0 r3 (replicate 19 0)
  cl ← fresh_table 19 cl_lengths
  let total = nlit + ndist
  (lengths, r5) ← length_loop total r4 cl total (replicate (max_lcodes + max_dcodes) 0) 0
  lit ← fresh_table max_lcodes (take nlit lengths)
  dist ← fresh_table max_dcodes (take ndist (drop nlit lengths))
  inflate_codes fuel (record s { r = r5 }) lit dist

-- The copy loop of a stored block, with the rounds left.
unfoldable pub copy_stored : ℕ → State → Run State
copy_stored zero s = ok s
copy_stored (suc n) s = do
  byte ← read s.r.src s.r.pos
  dst ← write s.dst s.dst_pos byte
  copy_stored n (record {
    r = record s.r { pos = u32 (s.r.pos + 1) };
    dst = dst;
    dst_pos = u32 (s.dst_pos + 1);
  })

unfoldable pub inflate_stored : State → Run State
inflate_stored s = do
  let size = length s.r.src
  _ ← ensure (leb (u32 (s.r.pos + 4)) size)
  lo ← read s.r.src s.r.pos
  hi ← read s.r.src (u32 (s.r.pos + 1))
  let len = bit_or lo (u32 (hi << 8))
  let pos = u32 (s.r.pos + 4)
  _ ← ensure (leb (u32 (pos + len)) size && leb (u32 (s.dst_pos + len)) (length s.dst))
  copy_stored len (record s { r = record s.r { pos = pos; bitbuf = 0; bitcnt = 0 } })

-- The loop over blocks. Each takes three bits at least. `fuel` bounds this loop and the one of each
-- block; `blocks` is the rounds left.
unfoldable pub block_loop : ℕ → ℕ → State → Run State
block_loop fuel zero s = out_of_fuel
block_loop fuel (suc blocks) s = do
  (last, r1) ← get_bits s.r 1
  (type, r2) ← get_bits r1 2
  let s' = record s { r = r2 }
  s'' ←
      if type == 0
      then inflate_stored s'
      else if type == 1
      then inflate_fixed fuel s'
      else if type == 2
      then inflate_dynamic fuel s'
      else fails
  elim (last == 0) [ true ↦ block_loop fuel blocks s'' | false ↦ ok s'' ]

-- As many rounds as the source has bits, and one.
abbrev pub enough_fuel : List ℕ → ℕ
enough_fuel src = 8 * length src + 1

-- `dst` as it is when `inflate` returns true; `fails` where it returns false.
unfoldable pub inflate : List ℕ → List ℕ → Run (List ℕ)
inflate src dst = do
  s ←
      block_loop (enough_fuel src) (enough_fuel src) (record {
        r = record { src = src; pos = 0; bitbuf = 0; bitcnt = 0 };
        dst = dst;
        dst_pos = 0;
      })
  _ ← ensure (s.dst_pos == length dst)
  ok s.dst
