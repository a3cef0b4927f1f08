-- ===== src/Inflate/Codes.antt =====
-- src/inflate.cpp, `State` and `inflate_codes`: one block of literals and copies.
pub mod Safe
use re_pico.Base.{
  ℕ, zero, suc, ◌+◌, ◌-◌, ◌^◌, List, [], ◌∷◌, Bool, true, false, ◌&&◌, u8, u32, ltb, leb, ◌==◌,
  if◌then◌else◌, length,
}
use re_pico.Base.Run.{Run, ok, out_of_fuel, ◌>>=◌, ensure, read, write}
use re_pico.Inflate.Reader.{BitReader, get_bits}
use re_pico.Inflate.Huffman.{Huffman, decode}

pub record State : Type 0 where
  pub r : BitReader
  pub dst : List ℕ
  pub dst_pos : ℕ

abbrev pub max_lcodes : ℕ
max_lcodes = 286

abbrev pub max_dcodes : ℕ
max_dcodes = 30

abbrev pub len_base : List ℕ
len_base =
    3 ∷ 4 ∷ 5 ∷ 6 ∷ 7 ∷ 8 ∷ 9 ∷ 10 ∷ 11 ∷ 13 ∷ 15 ∷ 17 ∷ 19 ∷ 23 ∷ 27 ∷ 31 ∷ 35 ∷ 43 ∷ 51 ∷ 59 ∷ 67
    ∷ 83 ∷ 99 ∷ 115 ∷ 131 ∷ 163 ∷ 195 ∷ 227 ∷ 258 ∷ []

abbrev pub len_extra : List ℕ
len_extra =
    0 ∷ 0 ∷ 0 ∷ 0 ∷ 0 ∷ 0 ∷ 0 ∷ 0 ∷ 1 ∷ 1 ∷ 1 ∷ 1 ∷ 2 ∷ 2 ∷ 2 ∷ 2 ∷ 3 ∷ 3 ∷ 3 ∷ 3 ∷ 4 ∷ 4 ∷ 4 ∷ 4
    ∷ 5 ∷ 5 ∷ 5 ∷ 5 ∷ 0 ∷ []

abbrev pub dist_base : List ℕ
dist_base =
    1 ∷ 2 ∷ 3 ∷ 4 ∷ 5 ∷ 7 ∷ 9 ∷ 13 ∷ 17 ∷ 25 ∷ 33 ∷ 49 ∷ 65 ∷ 97 ∷ 129 ∷ 193 ∷ 257 ∷ 385 ∷ 513 ∷ 769
    ∷ 1025 ∷ 1537 ∷ 2049 ∷ 3073 ∷ 4097 ∷ 6145 ∷ 8193 ∷ 12289 ∷ 16385 ∷ 24577 ∷ []

abbrev pub dist_extra : List ℕ
dist_extra =
    0 ∷ 0 ∷ 0 ∷ 0 ∷ 1 ∷ 1 ∷ 2 ∷ 2 ∷ 3 ∷ 3 ∷ 4 ∷ 4 ∷ 5 ∷ 5 ∷ 6 ∷ 6 ∷ 7 ∷ 7 ∷ 8 ∷ 8 ∷ 9 ∷ 9 ∷ 10 ∷ 10
    ∷ 11 ∷ 11 ∷ 12 ∷ 12 ∷ 13 ∷ 13 ∷ []

-- The copy loop, with the rounds left. The source may overlap what is written.
unfoldable pub copy : ℕ → ℕ → State → Run State
copy zero distance s = ok s
copy (suc n) distance s = do
  byte ← read s.dst (u32 (s.dst_pos + 2 ^ 32 - distance))
  dst ← write s.dst s.dst_pos byte
  copy n distance (record s { dst = dst; dst_pos = u32 (s.dst_pos + 1) })

-- A literal: one byte goes out.
unfoldable pub put_literal : State → ℕ → Run State
put_literal s sym = do
  _ ← ensure (ltb s.dst_pos (length s.dst))
  dst ← write s.dst s.dst_pos (u8 sym)
  ok (record s { dst = dst; dst_pos = u32 (s.dst_pos + 1) })

-- A length code, the distance code behind it, and the copy.
unfoldable pub put_match : State → Huffman → ℕ → Run State
put_match s dist sym = do
  _ ← ensure (ltb sym (length len_base))
  extra_bits ← read len_extra sym
  (extra, r1) ← get_bits s.r extra_bits
  base ← read len_base sym
  let count = base + extra
  (dsym, r2) ← decode r1 dist
  _ ← ensure (ltb dsym max_dcodes)
  dextra_bits ← read dist_extra dsym
  (dextra, r3) ← get_bits r2 dextra_bits
  dbase ← read dist_base dsym
  let distance = dbase + dextra
  _ ← ensure (leb distance s.dst_pos && leb (u32 (s.dst_pos + count)) (length s.dst))
  copy count distance (record s { r = r3 })

-- Each round takes a bit at least, so as many rounds as there are bits, and one more, are enough.
unfoldable pub inflate_codes : ℕ → State → Huffman → Huffman → Run State
inflate_codes zero s lit dist = out_of_fuel
inflate_codes (suc fuel) s lit dist = do
  (sym, r') ← decode s.r lit
  let s' = record s { r = r' }
  elim (sym == 256) [
    | true ↦ ok s'
    | false ↦ do
      s'' ← if ltb sym 256 then put_literal s' sym else put_match s' dist (sym - 257)
      inflate_codes fuel s'' lit dist
  ]
