-- ===== src/Halow/Delim.antt =====
-- src/halow/yaps.cpp: the word in front of each frame of the stream. `delim_crc`, `make_delim`, and
-- the checks at the head of `yaps_rx`.
pub mod Roundtrip
use re_pico.Base.{
  ℕ, ◌+◌, ◌-◌, ◌%◌, List, [], ◌∷◌, Bool, ◌&&◌, Option, none, some, bit_and, bit_or, u8, u32, ltb,
  leb, ◌<<◌, ◌>>◌, ◌==◌, if◌then◌else◌,
}
use re_pico.Base.Run.{Run, ok, ◌>>=◌, ensure}
use re_pico.Halow.Crc.{crc7}

abbrev pub yaps_max_rx : ℕ
yaps_max_rx = 1628

-- `sizeof(SkbHeader)`.
abbrev pub skb_header_size : ℕ
skb_header_size = 40

unfoldable pub delim_crc : ℕ → ℕ
delim_crc word =
    let masked = bit_and word 0x1ffffff in
    crc7 (u8 (masked >> 24) ∷ u8 (masked >> 16) ∷ u8 (masked >> 8) ∷ u8 masked ∷ [])

-- The unsigned difference `4 - pkt_size % 4` does not wrap.
unfoldable pub make_delim : ℕ → ℕ → ℕ → ℕ
make_delim pkt_size pool irq =
    let pad = (4 - pkt_size % 4) % 4 in
    let d =
      bit_or (bit_or (bit_or (bit_and pkt_size 0x3fff) (u32 (pool << 14))) (u32 (pad << 17)))
        (u32 (irq << 19)) in
    bit_or d (u32 (delim_crc d << 25))

-- The size of the frame that follows a word, `none` where none is waiting.
unfoldable pub rx_size : ℕ → ℕ → Run (Option ℕ)
rx_size reserved delim = if delim == 0 then ok none else (do
  _ ← ensure (delim_crc delim == (delim >> 25))
  let raw_size = bit_and delim 0x3fff
  let padding = bit_and (delim >> 17) 0x3
  _ ← ensure (ltb reserved raw_size)
  let total = u32 (raw_size - reserved + padding)
  _ ← ensure (total % 4 == 0 && leb skb_header_size total && leb total yaps_max_rx)
  ok (some total))
