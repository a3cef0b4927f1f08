-- ===== src/Halow/Tests.antt =====
-- The checksums and the words of the stream, run: the tests and the examples of the theorems.
use re_pico.Base.{◌≡◌, refl, [], ◌∷◌, some, arith, ◌+◌, ◌-◌, ◌%◌}
use re_pico.Base.Run.{ok}
use re_pico.Halow.Crc.{
  crc7_rounds, crc7_step, crc7_from, crc7, crc16_rounds, crc16_step, crc16_from, crc16,
}
use re_pico.Halow.Delim.{make_delim, rx_size}
use re_pico.Halow.Delim.Roundtrip.{make_delim-rx_size}

-- The `static_assert` of crc.hpp.
cmd0_crc : crc7 (0x40 ∷ 0 ∷ 0 ∷ 0 ∷ 0 ∷ []) ≡ 0x4a
unfolding crc7 crc7_from crc7_step crc7_rounds
cmd0_crc = refl

-- The check value of XMODEM for the digits 1 to 9.
digits_crc : crc16 (0x31 ∷ 0x32 ∷ 0x33 ∷ 0x34 ∷ 0x35 ∷ 0x36 ∷ 0x37 ∷ 0x38 ∷ 0x39 ∷ []) ≡ 0x31c3
unfolding crc16 crc16_from crc16_step crc16_rounds
digits_crc = refl

make_delim-rx_size_example : rx_size 8 (make_delim 70 2 1) ≡ ok (some (70 - 8 + (4 - 70 % 4) % 4))
make_delim-rx_size_example =
    make_delim-rx_size 8 70 2 1 (omega arith) (omega arith) (omega arith) refl (omega arith)
      (omega arith)
