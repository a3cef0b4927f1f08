-- ===== src/Crypto/Tests.antt =====
-- The hashes and ciphers, run: the tests and the examples of the theorems.
use re_pico.Base.{ℕ, ◌≡◌, refl, List, [], ◌∷◌, ◌++◌, replicate, take, arith}
use re_pico.Base.Run.{ok, ◌>>=◌, write, copy_to}
use re_pico.Base.Bytes.{Bytes}
use re_pico.Crypto.Sha256.Compress.{rotr, word_at, first_words, extend, round, rounds, compress}
use re_pico.Crypto.Sha256.{
  block_loop, update_blocks, update, zero_loop, length_loop, digest_bytes, finish_block, finish,
  sha256,
}
use re_pico.Crypto.Sha256.{Sha256, fresh}
use re_pico.Crypto.Sha256.Absorb.{Holds}
use re_pico.Crypto.Sha256.Stream.{update_lem}
use re_pico.Crypto.Sha256.Padding.{digest_of}
use re_pico.Crypto.Sha256.Finish.{finish_lem, fresh-Holds}
use re_pico.Crypto.Hmac.{hmac_sha256_vector}
use re_pico.Crypto.Hmac.Spec.{hmac_of, concat, hmac_sha256_vector_lem}
use re_pico.Crypto.Kdf.{sha256_prf, hkdf_expand}
use re_pico.Crypto.Kdf.Fill.{stream}
use re_pico.Crypto.Kdf.Spec.{
  prf_hash, count_on, sha256_prf_lem, hkdf_hash, hkdf_next, hkdf_expand_lem,
}
use re_pico.Crypto.Aes.Field.{
  double, gf_mul_loop, gf_mul, inv_loop, gf_inv, rotl8, sbox_entry, sbox_loop, sbox,
}
use re_pico.Crypto.Aes.{
  add_round_key, sub_bytes, shift_rows, mix_column, mix_columns, word, round_key, schedule_word,
  expand_loop, expand_key, encrypt_rounds, encrypt_block, decrypt_block,
}
use re_pico.Crypto.Aes.Blocks.{IsBlock}
use re_pico.Crypto.Aes.Schedule.{decrypt_block-encrypt_block}
use re_pico.Crypto.KeyWrap.{aes_key_wrap, aes_key_unwrap}
use re_pico.Crypto.KeyWrap.RoundTrip.{aes_key_unwrap-aes_key_wrap}

-- FIPS 180-4: the hash of `abc`.
sha256_abc :
    sha256 (replicate 64 0) (0x61 ∷ 0x62 ∷ 0x63 ∷ [])
    ≡ ok (
        186 ∷ 120 ∷ 22 ∷ 191 ∷ 143 ∷ 1 ∷ 207 ∷ 234 ∷ 65 ∷ 65 ∷ 64 ∷ 222 ∷ 93 ∷ 174 ∷ 34 ∷ 35 ∷ 176
        ∷ 3 ∷ 97 ∷ 163 ∷ 150 ∷ 23 ∷ 122 ∷ 156 ∷ 180 ∷ 16 ∷ 255 ∷ 97 ∷ 242 ∷ 0 ∷ 21 ∷ 173 ∷ [])
unfolding sha256 update update_blocks block_loop finish finish_block zero_loop length_loop
    digest_bytes compress rounds round extend first_words word_at rotr write copy_to
sha256_abc = refl

abbrev bytes_to_15 : List ℕ
bytes_to_15 = 0 ∷ 1 ∷ 2 ∷ 3 ∷ 4 ∷ 5 ∷ 6 ∷ 7 ∷ 8 ∷ 9 ∷ 10 ∷ 11 ∷ 12 ∷ 13 ∷ 14 ∷ 15 ∷ []

abbrev plain_text : List ℕ
plain_text =
    0x00 ∷ 0x11 ∷ 0x22 ∷ 0x33 ∷ 0x44 ∷ 0x55 ∷ 0x66 ∷ 0x77 ∷ 0x88 ∷ 0x99 ∷ 0xaa ∷ 0xbb ∷ 0xcc ∷ 0xdd
    ∷ 0xee ∷ 0xff ∷ []

abbrev cipher_text : List ℕ
cipher_text =
    0x69 ∷ 0xc4 ∷ 0xe0 ∷ 0xd8 ∷ 0x6a ∷ 0x7b ∷ 0x04 ∷ 0x30 ∷ 0xd8 ∷ 0xcd ∷ 0xb7 ∷ 0x80 ∷ 0x70 ∷ 0xb4
    ∷ 0xc5 ∷ 0x5a ∷ []

-- FIPS 197, appendix C.1.
encrypt_vector : encrypt_block (expand_key bytes_to_15) plain_text ≡ cipher_text
unfolding encrypt_block add_round_key shift_rows sub_bytes encrypt_rounds mix_columns mix_column
    round_key expand_key expand_loop word schedule_word sbox sbox_loop sbox_entry rotl8 gf_inv
    inv_loop gf_mul gf_mul_loop double
encrypt_vector = refl

bytes_to_15-Bytes : Bytes bytes_to_15
bytes_to_15-Bytes = ground arith

plain_text-IsBlock : IsBlock plain_text
plain_text-IsBlock = (refl, ground arith)

decrypt_block-encrypt_block_example :
    decrypt_block (expand_key bytes_to_15) (encrypt_block (expand_key bytes_to_15) plain_text)
    ≡ plain_text
decrypt_block-encrypt_block_example =
    decrypt_block-encrypt_block bytes_to_15 plain_text bytes_to_15-Bytes plain_text-IsBlock

aes_key_unwrap-aes_key_wrap_example :
    (aes_key_wrap (expand_key bytes_to_15) plain_text >>= aes_key_unwrap (expand_key bytes_to_15))
    ≡ ok plain_text
aes_key_unwrap-aes_key_wrap_example =
    aes_key_unwrap-aes_key_wrap bytes_to_15 plain_text bytes_to_15-Bytes plain_text-IsBlock.1 refl
      (omega arith)

abbrev abc : List ℕ
abc = 0x61 ∷ 0x62 ∷ 0x63 ∷ []

abbrev zeros : List ℕ
zeros = replicate 64 0

update_lem_example : (c' : Sha256) × (update (fresh zeros) abc ≡ ok c') × Holds c' ([] ++ abc)
update_lem_example = update_lem (fresh zeros) [] abc (fresh-Holds zeros refl)

finish_lem_example : finish (fresh zeros) ≡ ok (digest_of [])
finish_lem_example = finish_lem (fresh zeros) [] (fresh-Holds zeros refl) (omega arith)

hmac_sha256_vector_lem_example :
    hmac_sha256_vector zeros bytes_to_15 (abc ∷ bytes_to_15 ∷ [])
    ≡ ok (hmac_of bytes_to_15 (concat (abc ∷ bytes_to_15 ∷ [])))
hmac_sha256_vector_lem_example =
    hmac_sha256_vector_lem zeros bytes_to_15 (abc ∷ bytes_to_15 ∷ []) refl (omega arith)
      (omega arith)

sha256_prf_lem_example :
    sha256_prf zeros bytes_to_15 abc plain_text (replicate 48 0)
    ≡ ok (take 48 (stream (prf_hash bytes_to_15 abc plain_text 384) count_on 48 1))
sha256_prf_lem_example =
    sha256_prf_lem zeros bytes_to_15 abc plain_text (replicate 48 0) refl (omega arith)
      (omega arith)

hkdf_expand_lem_example :
    hkdf_expand zeros bytes_to_15 abc (replicate 48 0)
    ≡ ok (take 48 (stream (hkdf_hash bytes_to_15 abc) (hkdf_next bytes_to_15 abc) 48 ([], 1)))
hkdf_expand_lem_example =
    hkdf_expand_lem zeros bytes_to_15 abc (replicate 48 0) refl (omega arith) (omega arith)
