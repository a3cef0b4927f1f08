-- ===== src/Inflate/Reader.antt =====
-- src/inflate.cpp, `BitReader` and `get_bits`: bits are taken lowest first from the bytes.
pub mod Number
pub mod Safe
use re_pico.Base.{
  ℕ, zero, suc, ◌+◌, ◌-◌, ◌^◌, List, Bool, true, false, bit_and, bit_or, u32, ◌<<◌, ◌>>◌, ltb,
  if◌then◌else◌, length,
}
use re_pico.Base.Run.{Run, ok, out_of_fuel, ◌>>=◌, ensure, read}

pub record BitReader : Type 0 where
  pub src : List ℕ
  pub pos : ℕ
  pub bitbuf : ℕ
  pub bitcnt : ℕ

-- The `while` loop of `get_bits`. A round adds 8 bits, so `need` rounds are enough.
unfoldable pub fill : ℕ → ℕ → BitReader → ℕ → Run (ℕ × BitReader)
fill zero need r val = if ltb r.bitcnt need then out_of_fuel else ok (val, r)
fill (suc fuel) need r val = elim (ltb r.bitcnt need) [
  | true ↦ do
    _ ← ensure (ltb r.pos (length r.src))
    byte ← read r.src r.pos
    fill fuel need (record r { pos = u32 (r.pos + 1); bitcnt = u32 (r.bitcnt + 8) })
        (bit_or val (u32 (byte << r.bitcnt)))
  | false ↦ ok (val, r)
]

-- `need` is at most 24, so that `1 << need` is as written.
unfoldable pub get_bits : BitReader → ℕ → Run (ℕ × BitReader)
get_bits r need = do
  (val, r') ← fill need need r r.bitbuf
  ok (bit_and val (2 ^ need - 1), record r' { bitbuf = val >> need; bitcnt = r'.bitcnt - need })
