-- ===== src/Crypto/Aes/Field.antt =====
-- aes.cpp, `gf_mul`, `gf_inv`, `rotl8` and the two tables.
pub mod Linear
use re_pico.Base.{
  ℕ, zero, suc, ◌+◌, ◌-◌, List, [], ◌∷◌, true, false, not, bit_and, bit_or, bit_xor, u8, ◌<<◌, ◌>>◌,
  ◌==◌, if◌then◌else◌, get_or, set, replicate,
}

-- The polynomial times `x`: the step of the loop on `a`.
unfoldable pub double : ℕ → ℕ
double a = if not (bit_and a 0x80 == 0) then bit_xor (u8 (a << 1)) 0x1b else u8 (a << 1)

unfoldable pub gf_mul_loop : ℕ → ℕ → ℕ → ℕ → ℕ
gf_mul_loop zero a b r = r
gf_mul_loop (suc n) a b r =
    gf_mul_loop n (double a) (b >> 1) (if not (bit_and b 1 == 0) then bit_xor r a else r)

unfoldable pub gf_mul : ℕ → ℕ → ℕ
gf_mul a b = gf_mul_loop 8 a b 0

-- `while(e != 0)`: eight rounds for an exponent of eight bits, and one that ends.
unfoldable pub inv_loop : ℕ → ℕ → ℕ → ℕ → ℕ
inv_loop zero e p r = r
inv_loop (suc fuel) e p r = elim (e == 0) [
  | true ↦ r
  | false ↦ inv_loop fuel (e >> 1) (gf_mul p p) (if not (bit_and e 1 == 0) then gf_mul r p else r)
]

unfoldable pub gf_inv : ℕ → ℕ
gf_inv a = inv_loop 9 254 a 1

unfoldable pub rotl8 : ℕ → ℕ → ℕ
rotl8 v n = u8 (bit_or (v << n) (v >> (8 - n)))

unfoldable pub sbox_entry : ℕ → ℕ
sbox_entry i =
    let b = gf_inv i in
    u8 (
      bit_xor
        (bit_xor (bit_xor (bit_xor (bit_xor b (rotl8 b 1)) (rotl8 b 2)) (rotl8 b 3)) (rotl8 b 4))
        0x63)

unfoldable pub sbox_loop : ℕ → ℕ → List ℕ
sbox_loop zero i = []
sbox_loop (suc n) i = sbox_entry i ∷ sbox_loop n (i + 1)

unfoldable pub sbox : List ℕ
sbox = sbox_loop 256 0

-- `t[sbox[i]] = i`, over the entries from `i` on.
unfoldable pub inv_sbox_loop : List ℕ → ℕ → List ℕ → List ℕ
inv_sbox_loop [] i t = t
inv_sbox_loop (s ∷ rest) i t = inv_sbox_loop rest (i + 1) (set t s i)

unfoldable pub inv_sbox : List ℕ
inv_sbox = inv_sbox_loop sbox 0 (replicate 256 0)
