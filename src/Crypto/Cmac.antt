-- ===== src/Crypto/Cmac.antt =====
-- submodules/re-crypto/src/crypto/aes-cmac.cpp. `keys` is the bytes of the cipher's round keys and
-- `usize` has 32 bits; a span of no bytes is not valid, whatever its pointer.
pub mod Double
pub mod Chain
pub mod Spec
pub mod Tests
use re_pico.Base.{
  ℕ, zero, suc, ◌+◌, ◌-◌, ◌*◌, ◌/◌, ◌%◌, ◌^◌, List, [], ◌∷◌, Bool, true, false, ◌&&◌, not, bit_and,
  bit_or, bit_xor, u8, u32, ◌<<◌, ◌>>◌, ◌==◌, ltb, get_or, set, take, drop, length, replicate,
  if◌then◌else◌,
}
use re_pico.Base.Run.{Run, ok, ◌>>=◌, read, write, copy_to}
use re_pico.Crypto.Aes.{encrypt_block}

unfoldable pub shift_loop : ℕ → ℕ → List ℕ → List ℕ
shift_loop zero i b = b
shift_loop (suc n) i b =
    shift_loop n (i + 1) (set b i (u8 (bit_or (get_or b i 0 << 1) (get_or b (i + 1) 0 >> 7))))

unfoldable pub gf128_dbl : List ℕ → List ℕ
gf128_dbl b =
    let shifted = shift_loop 15 0 b in
    let doubled = set shifted 15 (u8 (get_or shifted 15 0 << 1)) in
    if bit_and (get_or b 0 0) 0x80 == 0
    then doubled
    else set doubled 15 (bit_xor (get_or doubled 15 0) 0x87)

-- `x[j] ^= data[off + j]`
unfoldable pub absorb_loop : ℕ → ℕ → List ℕ → ℕ → List ℕ → Run (List ℕ)
absorb_loop zero j bytes off x = ok x
absorb_loop (suc n) j bytes off x = do
  d ← read bytes (off + j)
  absorb_loop n (j + 1) bytes off (set x j (bit_xor (get_or x j 0) d))

unfoldable pub chain_loop : List ℕ → ℕ → ℕ → List ℕ → List ℕ → Run (List ℕ)
chain_loop keys zero i bytes x = ok x
chain_loop keys (suc n) i bytes x = do
  x' ← absorb_loop 16 0 bytes (i * 16) x
  chain_loop keys n (i + 1) bytes (encrypt_block keys x')

-- `x[j] ^= last[j] ^ subkey[j]`
unfoldable pub mask_loop : ℕ → ℕ → List ℕ → List ℕ → List ℕ → List ℕ
mask_loop zero j last subkey x = x
mask_loop (suc n) j last subkey x =
    mask_loop n (j + 1) last subkey
      (set x j (bit_xor (get_or x j 0) (bit_xor (get_or last j 0) (get_or subkey j 0))))

unfoldable pub num_prev : List ℕ → ℕ
num_prev bytes = if length bytes == 0 then 0 else u32 (u32 (length bytes + 15) / 16 + 2 ^ 32 - 1)

abbrev pub full_last : List ℕ → Bool
full_last bytes = ltb 0 (length bytes) && (length bytes % 16 == 0)

unfoldable pub subkey_of : List ℕ → Bool → List ℕ
subkey_of keys full =
    let k1 = gf128_dbl (encrypt_block keys (replicate 16 0)) in if full then k1 else gf128_dbl k1

abbrev mark_end : Bool → ℕ → List ℕ → Run (List ℕ)
mark_end true rem last = ok last
mark_end false rem last = write last rem 0x80

unfoldable pub aes_cmac : List ℕ → List ℕ → Run (List ℕ)
aes_cmac keys bytes = do
  let subkey = subkey_of keys (full_last bytes)
  let prev = num_prev bytes
  x ← chain_loop keys prev 0 bytes (replicate 16 0)
  let rem = length bytes - prev * 16
  copied ← copy_to (replicate 16 0) 0 (take rem (drop (prev * 16) bytes))
  last ← mark_end (full_last bytes) rem copied
  ok (encrypt_block keys (mask_loop 16 0 last subkey x))
