-- ===== src/Halow/Crc.antt =====
-- src/halow/crc.hpp: the checksums of the bus.
pub mod Residue
use re_pico.Base.{
  ℕ, zero, suc, List, [], ◌∷◌, Bool, not, bit_and, bit_xor, u8, u16, ◌<<◌, ◌>>◌, ◌==◌,
  if◌then◌else◌,
}

-- The loop of `crc7_step`, with the rounds left.
unfoldable pub crc7_rounds : ℕ → ℕ → ℕ
crc7_rounds zero reg = reg
crc7_rounds (suc n) reg =
    crc7_rounds n
      (if not (bit_and reg 0x80 == 0) then u8 (bit_xor (reg << 1) 0x12) else u8 (reg << 1))

unfoldable pub crc7_step : ℕ → ℕ → ℕ
crc7_step crc byte = crc7_rounds 8 (u8 (bit_xor (crc << 1) byte)) >> 1

-- The loop of `crc7`, from the given value on.
unfoldable pub crc7_from : ℕ → List ℕ → ℕ
crc7_from crc [] = crc
crc7_from crc (byte ∷ bytes) = crc7_from (crc7_step crc byte) bytes

unfoldable pub crc7 : List ℕ → ℕ
crc7 bytes = crc7_from 0 bytes

unfoldable pub crc16_rounds : ℕ → ℕ → ℕ
crc16_rounds zero crc = crc
crc16_rounds (suc n) crc =
    crc16_rounds n
      (if not (bit_and crc 0x8000 == 0) then u16 (bit_xor (crc << 1) 0x1021) else u16 (crc << 1))

unfoldable pub crc16_step : ℕ → ℕ → ℕ
crc16_step crc byte = crc16_rounds 8 (bit_xor crc (u16 (byte << 8)))

unfoldable pub crc16_from : ℕ → List ℕ → ℕ
crc16_from crc [] = crc
crc16_from crc (byte ∷ bytes) = crc16_from (crc16_step crc byte) bytes

unfoldable pub crc16 : List ℕ → ℕ
crc16 bytes = crc16_from 0 bytes
