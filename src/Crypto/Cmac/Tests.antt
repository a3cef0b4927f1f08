-- ===== src/Crypto/Cmac/Tests.antt =====
-- The codes of RFC 4493, section 4, and the examples of the theorems on `aes_cmac`.
use re_pico.Base.{ℕ, ◌≡◌, refl, List, [], ◌∷◌, arith}
use re_pico.Base.Run.{ok, read, write, copy_to}
use re_pico.Base.Bytes.{Bytes}
use re_pico.Crypto.Aes.Field.{
  double, gf_mul_loop, gf_mul, inv_loop, gf_inv, rotl8, sbox_entry, sbox_loop, sbox,
}
use re_pico.Crypto.Aes.{
  add_round_key, sub_bytes, shift_rows, mix_column, mix_columns, word, round_key, schedule_word,
  expand_loop, expand_key, encrypt_rounds, encrypt_block,
}
use re_pico.Crypto.Aes.Schedule.{expand_key-Bytes}
use re_pico.Crypto.Cmac.{
  shift_loop, gf128_dbl, absorb_loop, chain_loop, mask_loop, num_prev, subkey_of, aes_cmac,
}
use re_pico.Crypto.Cmac.Spec.{cmac_of, aes_cmac_lem}

abbrev key : List ℕ
key =
    0x2b ∷ 0x7e ∷ 0x15 ∷ 0x16 ∷ 0x28 ∷ 0xae ∷ 0xd2 ∷ 0xa6 ∷ 0xab ∷ 0xf7 ∷ 0x15 ∷ 0x88 ∷ 0x09 ∷ 0xcf
    ∷ 0x4f ∷ 0x3c ∷ []

abbrev message : List ℕ
message =
    0x6b ∷ 0xc1 ∷ 0xbe ∷ 0xe2 ∷ 0x2e ∷ 0x40 ∷ 0x9f ∷ 0x96 ∷ 0xe9 ∷ 0x3d ∷ 0x7e ∷ 0x11 ∷ 0x73 ∷ 0x93
    ∷ 0x17 ∷ 0x2a ∷ []

empty_vector :
    aes_cmac (expand_key key) []
    ≡ ok (
        0xbb ∷ 0x1d ∷ 0x69 ∷ 0x29 ∷ 0xe9 ∷ 0x59 ∷ 0x37 ∷ 0x28 ∷ 0x7f ∷ 0xa3 ∷ 0x7d ∷ 0x12 ∷ 0x9b
        ∷ 0x75 ∷ 0x67 ∷ 0x46 ∷ [])
unfolding aes_cmac shift_loop gf128_dbl absorb_loop chain_loop mask_loop num_prev subkey_of read
    write copy_to encrypt_block add_round_key shift_rows sub_bytes encrypt_rounds mix_columns
    mix_column round_key expand_key expand_loop word schedule_word sbox sbox_loop sbox_entry rotl8
    gf_inv inv_loop gf_mul gf_mul_loop double
empty_vector = refl

block_vector :
    aes_cmac (expand_key key) message
    ≡ ok (
        0x07 ∷ 0x0a ∷ 0x16 ∷ 0xb4 ∷ 0x6b ∷ 0x4d ∷ 0x41 ∷ 0x44 ∷ 0xf7 ∷ 0x9b ∷ 0xdd ∷ 0x9d ∷ 0xd0
        ∷ 0x4a ∷ 0x28 ∷ 0x7c ∷ [])
unfolding aes_cmac shift_loop gf128_dbl absorb_loop chain_loop mask_loop num_prev subkey_of read
    write copy_to encrypt_block add_round_key shift_rows sub_bytes encrypt_rounds mix_columns
    mix_column round_key expand_key expand_loop word schedule_word sbox sbox_loop sbox_entry rotl8
    gf_inv inv_loop gf_mul gf_mul_loop double
block_vector = refl

key-Bytes : Bytes key
key-Bytes = ground arith

message-Bytes : Bytes message
message-Bytes = ground arith

aes_cmac_lem_example : aes_cmac (expand_key key) message ≡ ok (cmac_of (expand_key key) message)
aes_cmac_lem_example =
    aes_cmac_lem (expand_key key) message (expand_key-Bytes key key-Bytes) message-Bytes
      (omega arith)
