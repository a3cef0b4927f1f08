-- ===== src/Halow/Crc/Residue.antt =====
-- What the checksums give: their range, and the residue of data that carries its checksum.
use re_pico.Base.{
  ℕ, zero, suc, ◌*◌, ◌/◌, ◌%◌, ◌<◌, ◌≡◌, ◌∙◌, refl, ap, List, [], ◌∷◌, ◌++◌, bit_and, bit_xor, u8,
  u16, ◌<<◌, arith,
}
use re_pico.Base.Bits.{
  bit_and_fields, bit_and-zero, bit_xor_fields, bit_xor_self, bit_xor-zero, bit_xor-lt,
}
use re_pico.Net.Wire.{be16}
use re_pico.Halow.Crc.{
  crc7_rounds, crc7_step, crc7_from, crc16_rounds, crc16_step, crc16_from, crc16,
}

crc7_rounds-lt : (n reg : ℕ) → reg < 256 → crc7_rounds n reg < 256
unfolding crc7_rounds
crc7_rounds-lt zero reg h = h
crc7_rounds-lt (suc n) reg h = crc7_rounds-lt n _ (ground arith)

crc7_step-lt : (crc byte : ℕ) → crc7_step crc byte < 128
unfolding crc7_step
crc7_step-lt crc byte = omega (arith, crc7_rounds-lt 8 (u8 (bit_xor (crc << 1) byte)) (omega arith))

pub crc7_from-lt : (crc : ℕ) (bytes : List ℕ) → crc < 128 → crc7_from crc bytes < 128
unfolding crc7_from
crc7_from-lt crc [] h = h
crc7_from-lt crc (byte ∷ bytes) h = crc7_from-lt (crc7_step crc byte) bytes (crc7_step-lt crc byte)

crc16_rounds-lt : (n crc : ℕ) → crc < 65536 → crc16_rounds n crc < 65536
unfolding crc16_rounds
crc16_rounds-lt zero crc h = h
crc16_rounds-lt (suc n) crc h = crc16_rounds-lt n _ (ground arith)

crc16_step-lt : (crc byte : ℕ) → crc < 65536 → crc16_step crc byte < 65536
unfolding crc16_step
crc16_step-lt crc byte h =
    crc16_rounds-lt 8 (bit_xor crc (u16 (byte << 8)))
      (bit_xor-lt 16 crc (u16 (byte << 8)) h (omega arith))

pub crc16_from-lt : (crc : ℕ) (bytes : List ℕ) → crc < 65536 → crc16_from crc bytes < 65536
unfolding crc16_from
crc16_from-lt crc [] h = h
crc16_from-lt crc (byte ∷ bytes) h =
    crc16_from-lt (crc16_step crc byte) bytes (crc16_step-lt crc byte h)

-- A register whose top bit is clear shifts without the polynomial.
top_clear : (x : ℕ) → x < 32768 → bit_and x 0x8000 ≡ 0
top_clear x h = ground (arith, bit_and_fields 15 0 1 x 0, bit_and-zero x, bit_and-zero 0)

shift_round : (n x y : ℕ) → y ≡ x * 2 → x < 32768 → crc16_rounds (suc n) x ≡ crc16_rounds n y
unfolding crc16_rounds
shift_round n x y e h = rw (top_clear x h) (ap (crc16_rounds n) (omega arith))

no_rounds : (x : ℕ) → crc16_rounds 0 x ≡ x
unfolding crc16_rounds
no_rounds x = refl

low_byte : (lo : ℕ) → lo < 256 → crc16_rounds 8 lo ≡ lo * 256
low_byte lo h =
    shift_round 7 lo (lo * 2) (omega arith) (omega arith)
    ∙ shift_round 6 (lo * 2) (lo * 4) (omega arith) (omega arith)
    ∙ shift_round 5 (lo * 4) (lo * 8) (omega arith) (omega arith)
    ∙ shift_round 4 (lo * 8) (lo * 16) (omega arith) (omega arith)
    ∙ shift_round 3 (lo * 16) (lo * 32) (omega arith) (omega arith)
    ∙ shift_round 2 (lo * 32) (lo * 64) (omega arith) (omega arith)
    ∙ shift_round 1 (lo * 64) (lo * 128) (omega arith) (omega arith)
    ∙ shift_round 0 (lo * 128) (lo * 256) (omega arith) (omega arith)
    ∙ no_rounds (lo * 256)

crc16_from-append :
    (crc : ℕ) (xs ys : List ℕ) → crc16_from crc (xs ++ ys) ≡ crc16_from (crc16_from crc xs) ys
unfolding crc16_from
crc16_from-append crc [] ys = refl
crc16_from-append crc (x ∷ xs) ys = crc16_from-append (crc16_step crc x) xs ys

first_xor : (crc : ℕ) → crc < 65536 → bit_xor crc (u16 (u8 (crc / 256) << 8)) ≡ u8 crc
first_xor crc h = ground (
  arith,
  bit_xor_fields 8 (crc / 256) (crc / 256) (crc % 256) 0,
  bit_xor_self (crc / 256),
  bit_xor-zero (crc % 256),
)

second_xor : (lo : ℕ) → lo < 256 → bit_xor (lo * 256) (u16 (lo << 8)) ≡ 0
second_xor lo h = ap (bit_xor (lo * 256)) (omega arith) ∙ bit_xor_self (lo * 256)

own_crc : (crc : ℕ) → crc < 65536 → crc16_from crc (be16 crc) ≡ 0
unfolding crc16_from crc16_step
own_crc crc h =
    rw (first_xor crc h, low_byte (u8 crc) (omega arith), second_xor (u8 crc) (omega arith))
      (low_byte 0 (omega arith))

-- Bytes followed by their 16-bit checksum, high byte first, have the checksum zero.
pub crc16-append_crc16 : (bytes : List ℕ) → crc16 (bytes ++ be16 (crc16 bytes)) ≡ 0
unfolding crc16
crc16-append_crc16 bytes =
    crc16_from-append 0 bytes (be16 (crc16_from 0 bytes))
    ∙ own_crc (crc16_from 0 bytes) (crc16_from-lt 0 bytes (omega arith))
