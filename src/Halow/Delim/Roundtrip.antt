-- ===== src/Halow/Delim/Roundtrip.antt =====
-- What the sender of a frame writes into its word is what the receiver's checks find.
use re_pico.Base.{
  ℕ, ◌+◌, ◌-◌, ◌*◌, ◌%◌, ◌^◌, ◌<◌, ◌≤◌, ◌≡◌, ◌∙◌, refl, some, bit_and, bit_or, u32, arith, ◌<<◌,
  ◌>>◌, leb, lt→ltb, ◌==◌, ◌&&◌, true, false,
}
use re_pico.Base.Run.{ok}
use re_pico.Base.Bits.{bit_and_mask, bit_or_low_high}
use re_pico.Halow.Crc.{crc7}
use re_pico.Halow.Crc.Residue.{crc7_from-lt}
use re_pico.Halow.Delim.{delim_crc, make_delim, rx_size}

delim_crc-lt : (word : ℕ) → delim_crc word < 128
unfolding delim_crc crc7
delim_crc-lt word = crc7_from-lt 0 _ (omega arith)

-- The word is the sum of its fields.
abbrev fields : ℕ → ℕ → ℕ → ℕ
fields size pool irq = irq * 2 ^ 19 + ((4 - size % 4) % 4 * 2 ^ 17 + (pool * 2 ^ 14 + size))

delim_fields :
    (size pool irq : ℕ)
    → size < 2 ^ 14
    → pool < 8
    → irq < 2
    → bit_or
        (bit_or (bit_or (bit_and size 0x3fff) (u32 (pool << 14))) (u32 ((4 - size % 4) % 4 << 17)))
        (u32 (irq << 19))
      ≡ fields size pool irq
delim_fields size pool irq hs hp hi =
    let pad : ℕ = (4 - size % 4) % 4 in
    ground (
      arith,
      bit_and_mask 14 size,
      bit_or_low_high 14 pool size,
      bit_or_low_high 17 pad (pool * 2 ^ 14 + size),
      bit_or_low_high 19 irq (pad * 2 ^ 17 + (pool * 2 ^ 14 + size)),
    )

with_crc : (c d : ℕ) → c < 128 → d < 2 ^ 25 → bit_or d (u32 (c << 25)) ≡ c * 2 ^ 25 + d
with_crc c d hc hd = ground (arith, bit_or_low_high 25 c d)

make_delim_lem :
    (size pool irq : ℕ)
    → size < 2 ^ 14
    → pool < 8
    → irq < 2
    → make_delim size pool irq ≡ delim_crc (fields size pool irq) * 2 ^ 25 + fields size pool irq
unfolding make_delim
make_delim_lem size pool irq hs hp hi = rw (delim_fields size pool irq hs hp hi) (
    with_crc (delim_crc (fields size pool irq)) (fields size pool irq)
      (delim_crc-lt (fields size pool irq)) (omega arith))

masked : (c d : ℕ) → d < 2 ^ 25 → bit_and (c * 2 ^ 25 + d) 0x1ffffff ≡ d
masked c d h = bit_and_mask 25 (c * 2 ^ 25 + d) ∙ omega arith

masked_low : (d : ℕ) → d < 2 ^ 25 → bit_and d 0x1ffffff ≡ d
masked_low d h = bit_and_mask 25 d ∙ omega arith

same_crc : (c d : ℕ) → d < 2 ^ 25 → delim_crc (c * 2 ^ 25 + d) ≡ delim_crc d
unfolding delim_crc
same_crc c d h = rw (masked c d h, masked_low d h, delim_crc) refl

different : (n : ℕ) → 0 < n → (n == 0) ≡ false
different n h = ground arith

top : (c d : ℕ) → d < 2 ^ 25 → (c == ((c * 2 ^ 25 + d) >> 25)) ≡ true
top c d h = ground arith

size_field :
    (c size pool irq : ℕ)
    → size < 2 ^ 14
    → bit_and (c * 2 ^ 25 + fields size pool irq) 0x3fff ≡ size
size_field c size pool irq h = bit_and_mask 14 (c * 2 ^ 25 + fields size pool irq) ∙ omega arith

pad_field :
    (c size pool irq : ℕ)
    → size < 2 ^ 14
    → pool < 8
    → bit_and ((c * 2 ^ 25 + fields size pool irq) >> 17) 0x3 ≡ (4 - size % 4) % 4
pad_field c size pool irq h k =
    bit_and_mask 2 ((c * 2 ^ 25 + fields size pool irq) >> 17) ∙ omega arith

total_lem :
    (reserved size : ℕ)
    → reserved + 40 ≤ size
    → size < 2 ^ 14
    → u32 (size - reserved + (4 - size % 4) % 4) ≡ size - reserved + (4 - size % 4) % 4
total_lem reserved size h k = omega arith

accepts :
    (reserved size : ℕ)
    → reserved % 4 ≡ 0
    → reserved + 40 ≤ size
    → size ≤ reserved + 1624
    → (let total = size - reserved + (4 - size % 4) % 4 in
        (total % 4 == 0 && leb 40 total && leb total 1628))
      ≡ true
accepts reserved size h k l = ground arith

-- A word that `make_delim` makes for a frame of between 40 and 1624 bytes beyond the reserved part,
-- with the reserved size a multiple of four, passes the checks of `yaps_rx`, its checksum included,
-- and gives the size of the frame with its padding.
pub make_delim-rx_size :
    (reserved size pool irq : ℕ)
    → size < 2 ^ 14
    → pool < 8
    → irq < 2
    → reserved % 4 ≡ 0
    → reserved + 40 ≤ size
    → size ≤ reserved + 1624
    → rx_size reserved (make_delim size pool irq) ≡ ok (some (size - reserved + (4 - size % 4) % 4))
unfolding rx_size
make_delim-rx_size reserved size pool irq hs hp hi even low high =
    let d : ℕ = fields size pool irq in
    let c : ℕ = delim_crc d in
    rw
      (
        make_delim_lem size pool irq hs hp hi,
        different (c * 2 ^ 25 + d) (omega arith),
        same_crc c d (omega arith),
        top c d (omega arith),
        size_field c size pool irq hs,
        pad_field c size pool irq hs hp,
        lt→ltb reserved size (omega arith),
        total_lem reserved size low hs,
        accepts reserved size even low high,
      )
      refl
