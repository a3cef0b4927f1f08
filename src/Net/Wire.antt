-- ===== src/Net/Wire.antt =====
-- Multi-byte scalars of the packet headers. The headers are packed structs read in place: a field
-- is a run of bytes, highest first (`noxx::byteswap` on the little-endian targets).
use re_pico.Base.{ℕ, ◌+◌, ◌*◌, ◌/◌, ◌^◌, ◌<◌, ◌≡◌, List, [], ◌∷◌, u8, get_or, arith}

abbrev pub be16 : ℕ → List ℕ
be16 n = u8 (n / 256) ∷ u8 n ∷ []

abbrev pub be32 : ℕ → List ℕ
be32 n = u8 (n / 2 ^ 24) ∷ u8 (n / 2 ^ 16) ∷ u8 (n / 256) ∷ u8 n ∷ []

abbrev pub get16 : List ℕ → ℕ → ℕ
get16 xs i = get_or xs i 0 * 256 + get_or xs (i + 1) 0

abbrev pub get32 : List ℕ → ℕ → ℕ
get32 xs i = get16 xs i * 2 ^ 16 + get16 xs (i + 2)

pub be16_number : (n : ℕ) → n < 65536 → u8 (n / 256) * 256 + u8 n ≡ n
be16_number n h = omega arith

pub be32_number :
    (n : ℕ)
    → n < 2 ^ 32
    → (u8 (n / 2 ^ 24) * 256 + u8 (n / 2 ^ 16)) * 2 ^ 16 + (u8 (n / 256) * 256 + u8 n) ≡ n
be32_number n h = omega arith
