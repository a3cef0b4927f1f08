-- ===== src/Net/Checksum.antt =====
-- submodules/re-net/src/net/ip.cpp, `sum_words`, `fold`, `checksum` and `l4_checksum`: the internet
-- checksum (RFC 1071).
pub mod Total
use re_pico.Base.{
  ℕ, zero, suc, ◌+◌, ◌-◌, ◌^◌, List, [], ◌∷◌, ◌++◌, true, false, u16, u32, bit_or, bit_and, ◌<<◌,
  ◌>>◌, ◌==◌, length,
}
use re_pico.Base.Run.{Run, ok, out_of_fuel}
use re_pico.Net.Wire.{be16, be32}

-- The loop over pairs of bytes; an odd last byte stands as the high one.
unfoldable pub sum_words : ℕ → List ℕ → ℕ
sum_words sum [] = sum
sum_words sum (hi ∷ []) = u32 (sum + bit_or (u32 (hi << 8)) 0)
sum_words sum (hi ∷ lo ∷ rest) = sum_words (u32 (sum + bit_or (u32 (hi << 8)) lo)) rest

-- `~sum` is taken in 32 bits and cut to 16. Two rounds are enough for any 32-bit sum.
unfoldable pub fold : ℕ → ℕ → Run ℕ
fold zero sum = out_of_fuel
fold (suc fuel) sum = elim ((sum >> 16) == 0) [
  | true ↦ ok (u16 (2 ^ 32 - 1 - sum))
  | false ↦ fold fuel (u32 (bit_and sum 0xffff + (sum >> 16)))
]

abbrev pub fold_rounds : ℕ
fold_rounds = 3

unfoldable pub checksum : List ℕ → Run ℕ
checksum bytes = fold fold_rounds (sum_words 0 bytes)

-- `struct Pseudo`. The addresses are given as 32-bit numbers, first byte highest.
unfoldable pub pseudo_header : ℕ → ℕ → ℕ → ℕ → List ℕ
pseudo_header src dst proto len = be32 src ++ (be32 dst ++ (0 ∷ proto ∷ be16 (u16 len)))

unfoldable pub l4_checksum : ℕ → ℕ → ℕ → List ℕ → Run ℕ
l4_checksum src dst proto segment =
    fold fold_rounds
      (sum_words (sum_words 0 (pseudo_header src dst proto (length segment))) segment)
