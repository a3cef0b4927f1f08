-- ===== src/Crypto/Sha256.antt =====
-- submodules/re-crypto/src/crypto/sha256.hpp and sha256.cpp.
pub mod Compress
pub mod Absorb
pub mod Stream
pub mod Padding
pub mod Finish
use re_pico.Base.{
  ℕ, zero, suc, ◌+◌, ◌-◌, ◌*◌, ◌/◌, ◌%◌, ◌^◌, List, [], ◌∷◌, ◌++◌, true, false, Bool, not, u8, min,
  ltb, leb, ◌==◌, ◌>>◌, if◌then◌else◌, length, get_or, take, drop, replicate,
}
use re_pico.Base.Run.{Run, ok, out_of_fuel, ◌>>=◌, write, copy_to}
use re_pico.Crypto.Sha256.Compress.{compress}

abbrev pub block_size : ℕ
block_size = 64

-- `state` has eight words; `total` counts bytes in 64 bits.
pub record Sha256 : Type 0 where
  pub state : List ℕ
  pub buf : List ℕ
  pub buf_used : ℕ
  pub total : ℕ

abbrev pub initial_state : List ℕ
initial_state =
    0x6a09e667 ∷ 0xbb67ae85 ∷ 0x3c6ef372 ∷ 0xa54ff53a ∷ 0x510e527f ∷ 0x9b05688c ∷ 0x1f83d9ab
    ∷ 0x5be0cd19 ∷ []

unfoldable pub reset : Sha256 → Sha256
reset c = record c { state = initial_state; buf_used = 0; total = 0 }

-- The loop over whole blocks of `update`: the state, and the bytes that are left.
unfoldable pub block_loop : ℕ → List ℕ → List ℕ → Run (List ℕ × List ℕ)
block_loop zero state bytes = out_of_fuel
block_loop (suc fuel) state bytes = elim (leb block_size (length bytes)) [
  | true ↦ block_loop fuel (compress state (take block_size bytes)) (drop block_size bytes)
  | false ↦ ok (state, bytes)
]

-- `update` from the loop on, where the buffer is empty. A round takes 64 bytes.
unfoldable pub update_blocks : Sha256 → List ℕ → Run Sha256
update_blocks c bytes = do
  (state, rest) ← block_loop (length bytes + 1) c.state bytes
  let c' = record c { state = state }
  if length rest == 0
      then ok c'
      else (do buf ← copy_to c.buf 0 rest; ok (record c' { buf = buf; buf_used = length rest }))

unfoldable pub update : Sha256 → List ℕ → Run Sha256
update c0 bytes =
    let c = record c0 { total = (c0.total + length bytes) % 2 ^ 64 } in
    if not (c.buf_used == 0)
    then (do
      let count = min (length bytes) (block_size - c.buf_used)
      buf ← copy_to c.buf c.buf_used (take count bytes)
      let used = c.buf_used + count
      let kept = record c { buf = buf; buf_used = used }
      let full = record c { buf = buf; buf_used = 0; state = compress c.state buf }
      if ltb used block_size then ok kept else update_blocks full (drop count bytes))
    else update_blocks c bytes

-- `buf[i] = 0` for `n` places.
unfoldable pub zero_loop : ℕ → ℕ → List ℕ → Run (List ℕ)
zero_loop zero i buf = ok buf
zero_loop (suc n) i buf = do buf' ← write buf i 0; zero_loop n (i + 1) buf'

-- The length in bits, highest byte first: `buf[63 - i] = u8(bits >> (i * 8))`.
unfoldable pub length_loop : ℕ → ℕ → ℕ → List ℕ → Run (List ℕ)
length_loop zero i bits buf = ok buf
length_loop (suc n) i bits buf = do
  buf' ← write buf (block_size - 1 - i) (u8 (bits / 2 ^ (i * 8)))
  length_loop n (i + 1) bits buf'

unfoldable pub digest_bytes : List ℕ → List ℕ
digest_bytes [] = []
digest_bytes (w ∷ ws) = u8 (w >> 24) ∷ u8 (w >> 16) ∷ u8 (w >> 8) ∷ u8 w ∷ digest_bytes ws

-- The last block, with the length, and the digest.
unfoldable pub finish_block : List ℕ → List ℕ → ℕ → ℕ → Run (List ℕ)
finish_block state buf used bits = do
  buf1 ← zero_loop (block_size - 8 - used) used buf
  buf2 ← length_loop 8 0 bits buf1
  ok (digest_bytes (compress state buf2))

unfoldable pub finish : Sha256 → Run (List ℕ)
finish c = do
  let bits = (c.total * 8) % 2 ^ 64
  buf ← write c.buf c.buf_used 0x80
  let used = c.buf_used + 1
  let spill = do
    buf' ← zero_loop (block_size - used) used buf
    finish_block (compress c.state buf') buf' 0 bits
  if ltb (block_size - 8) used then spill else finish_block c.state buf used bits

-- A context as it is made; the buffer's bytes are not set by the constructor.
abbrev pub fresh : List ℕ → Sha256
fresh buf = record { state = initial_state; buf = buf; buf_used = 0; total = 0 }

unfoldable pub sha256 : List ℕ → List ℕ → Run (List ℕ)
sha256 buf bytes = do c ← update (fresh buf) bytes; finish c
