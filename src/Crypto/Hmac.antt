-- ===== src/Crypto/Hmac.antt =====
-- submodules/re-crypto/src/crypto/hmac-sha256.hpp and hmac-sha256.cpp, and of kdf.cpp
-- `hmac_sha256_vector`. The buffer of a context is not set when it is made: `junk` stands for what
-- is in it.
pub mod Spec
use re_pico.Base.{ℕ, List, [], ◌∷◌, map, bit_xor, ltb, if◌then◌else◌, length, replicate}
use re_pico.Base.Run.{Run, ok, ◌>>=◌, copy_to}
use re_pico.Crypto.Sha256.{Sha256, block_size, fresh, reset, sha256}
use re_pico.Crypto.Sha256

pub record HmacSha256 : Type 0 where
  pub inner : Sha256
  pub outer_pad : List ℕ

abbrev pub ipad : ℕ
ipad = 0x36

abbrev pub opad : ℕ
opad = 0x5c

unfoldable pub key_block : List ℕ → List ℕ → Run (List ℕ)
key_block junk key =
    if ltb block_size (length key)
    then (do digest ← sha256 junk key; copy_to (replicate block_size 0) 0 digest)
    else copy_to (replicate block_size 0) 0 key

unfoldable pub start : List ℕ → List ℕ → Run HmacSha256
start junk key = do
  block ← key_block junk key
  inner ← Sha256.update (reset (fresh junk)) (map (bit_xor ipad) block)
  ok (record { inner = inner; outer_pad = map (bit_xor opad) block })

unfoldable pub feed : HmacSha256 → List ℕ → Run HmacSha256
feed h bytes = do inner ← Sha256.update h.inner bytes; ok (record h { inner = inner })

unfoldable pub close : List ℕ → HmacSha256 → Run (List ℕ)
close junk h = do
  inner_digest ← Sha256.finish h.inner
  outer ← Sha256.update (fresh junk) h.outer_pad
  outer' ← Sha256.update outer inner_digest
  Sha256.finish outer'

unfoldable pub hmac_sha256 : List ℕ → List ℕ → List ℕ → Run (List ℕ)
hmac_sha256 junk key bytes = do h ← start junk key; h' ← feed h bytes; close junk h'

unfoldable pub feed_pieces : HmacSha256 → List (List ℕ) → Run HmacSha256
feed_pieces h [] = ok h
feed_pieces h (piece ∷ pieces) = do h' ← feed h piece; feed_pieces h' pieces

unfoldable pub hmac_sha256_vector : List ℕ → List ℕ → List (List ℕ) → Run (List ℕ)
hmac_sha256_vector junk key pieces = do h ← start junk key; h' ← feed_pieces h pieces; close junk h'
