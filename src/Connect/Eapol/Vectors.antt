-- ===== src/Connect/Eapol/Vectors.antt =====
-- The handshake, run: a third message that is accepted, and the key derivation of the repository's
-- submodules/re-connect/tests/eapol.cpp.
use re_pico.Base.{ℕ, ◌≡◌, refl, List, [], ◌∷◌, ◌++◌, true, false, none, replicate}
use re_pico.Base.Run.{ok, read, write, copy_to}
use re_pico.Base.Outcome.{refused, returned}
use re_pico.Crypto.Sha256.Compress.{rotr, word_at, first_words, extend, round, rounds, compress}
use re_pico.Crypto.Sha256.{
  reset, block_loop, update_blocks, update, zero_loop, length_loop, digest_bytes, finish_block,
  finish, sha256,
}
use re_pico.Crypto.Hmac.{key_block, start, feed, close, feed_pieces, hmac_sha256_vector}
use re_pico.Crypto.Kdf.{fill_loop, prf_block, sha256_prf}
use re_pico.Crypto.Aes.Field.{
  double, gf_inv, gf_mul, gf_mul_loop, inv_loop, inv_sbox, inv_sbox_loop, rotl8, sbox, sbox_entry,
  sbox_loop,
}
use re_pico.Crypto.Aes.{
  add_round_key, decrypt_block, decrypt_rounds, encrypt_block, encrypt_rounds, expand_key,
  expand_loop, inv_mix_column, inv_mix_columns, inv_shift_rows, inv_sub_bytes, mix_column,
  mix_columns, round_key, schedule_word, shift_rows, sub_bytes, word,
}
use re_pico.Crypto.Cmac.{
  absorb_loop, aes_cmac, chain_loop, gf128_dbl, mask_loop, num_prev, shift_loop, subkey_of,
}
use re_pico.Crypto.KeyWrap.{
  aes_key_unwrap, block_at, diff_loop, put_block, unwrap_row, unwrap_rows, unwrap_step, xor_counter,
  xor_loop,
}
use re_pico.Connect.Eapol.Frame.{header_of, header_bytes, key_packet_of, key_packet_bytes}
use re_pico.Connect.Eapol.KeyData.{
  GroupKeys, gtk_kde, vendor_element, key_data_loop, parse_key_data,
}
use re_pico.Connect.Eapol.Ptk.{ptk_context, ptk_of, derive_ptk}
use re_pico.Connect.Eapol.Reply.{frame_bytes, build_reply}
use re_pico.Connect.Eapol.Supplicant.{
  Supplicant, installed, message_1, message_3, unsigned, unwrap_into, handle, on_frame,
}

abbrev pub zeros : ℕ → List ℕ
zeros n = replicate n 0

abbrev pub no_keys : GroupKeys
no_keys = record { gtk = record { key = replicate 32 0; len = 0; key_id = 0 }; igtk = none }

abbrev pub fresh : Supplicant
fresh = record {
  pmk =
      0xa4 ∷ 0x5d ∷ 0xb8 ∷ 0xa0 ∷ 0xb3 ∷ 0x72 ∷ 0x5a ∷ 0x6a ∷ 0xc7 ∷ 0xe9 ∷ 0xfe ∷ 0xde ∷ 0xc3
      ∷ 0x72 ∷ 0x1d ∷ 0x1d ∷ 0x59 ∷ 0x49 ∷ 0x98 ∷ 0xa1 ∷ 0x16 ∷ 0x74 ∷ 0x43 ∷ 0xc3 ∷ 0x2d ∷ 0x8c
      ∷ 0xa3 ∷ 0xed ∷ 0xb8 ∷ 0xf4 ∷ 0x57 ∷ 0x53 ∷ [];
  rsn_ie = replicate 22 0;
  aa = 0x00 ∷ 0x60 ∷ 0xad ∷ 0x80 ∷ 0x1f ∷ 0x51 ∷ [];
  spa = 0x0c ∷ 0xbf ∷ 0x74 ∷ 0x00 ∷ 0x00 ∷ 0x0a ∷ [];
  ptk = record { kck = zeros 16; kek = zeros 16; tk = zeros 16 };
  group = no_keys;
  ptk_done = false;
  complete = false;
  anonce = zeros 32;
  snonce = zeros 32;
  replay = 0;
}

-- With keys of zeros.
abbrev pub keyed : Supplicant
keyed = record fresh { ptk_done = true }

ptk_vector :
    derive_ptk (zeros 64) fresh.pmk fresh.aa fresh.spa (replicate 32 0x1a) (replicate 32 0x2b)
    ≡ ok (record {
      kck =
          0x76 ∷ 0x82 ∷ 0x1d ∷ 0x26 ∷ 0x20 ∷ 0x03 ∷ 0x5e ∷ 0xef ∷ 0x71 ∷ 0xfa ∷ 0x12 ∷ 0x49 ∷ 0x32
          ∷ 0x39 ∷ 0x0a ∷ 0x08 ∷ [];
      kek =
          0x1d ∷ 0x17 ∷ 0x47 ∷ 0x89 ∷ 0x03 ∷ 0x68 ∷ 0xf8 ∷ 0x73 ∷ 0xf5 ∷ 0x02 ∷ 0x89 ∷ 0x87 ∷ 0xaa
          ∷ 0xe0 ∷ 0xe3 ∷ 0xea ∷ [];
      tk =
          0xa5 ∷ 0x3e ∷ 0x4a ∷ 0x5c ∷ 0x41 ∷ 0x6d ∷ 0x34 ∷ 0xe5 ∷ 0xc8 ∷ 0x5d ∷ 0xf4 ∷ 0x21 ∷ 0xa3
          ∷ 0x4e ∷ 0x43 ∷ 0x2d ∷ [];
    })
unfolding derive_ptk ptk_context ptk_of sha256_prf prf_block fill_loop hmac_sha256_vector
    feed_pieces close feed start key_block reset sha256 update update_blocks block_loop finish
    finish_block zero_loop length_loop digest_bytes compress rounds round extend first_words word_at
    rotr write copy_to
ptk_vector = refl

-- A group key of sixteen bytes 0xa0, wrapped, under the replay counter 1.
abbrev pub m3_bytes : List ℕ
m3_bytes =
    2
    ∷ 3
    ∷ 0
    ∷ 127
    ∷ 2
    ∷ 0x13
    ∷ 0xc8
    ∷ 0
    ∷ 16
    ∷ 0
    ∷ 0
    ∷ 0
    ∷ 0
    ∷ 0
    ∷ 0
    ∷ 0
    ∷ 1
    ∷ (zeros 64
        ++ 248 ∷ 58 ∷ 146 ∷ 134 ∷ 114 ∷ 133 ∷ 166 ∷ 24 ∷ 92 ∷ 45 ∷ 30 ∷ 188 ∷ 98 ∷ 204 ∷ 57 ∷ 146
          ∷ 0 ∷ 32 ∷ 208 ∷ 51 ∷ 221 ∷ 161 ∷ 106 ∷ 41 ∷ 125 ∷ 127 ∷ 164 ∷ 63 ∷ 68 ∷ 33 ∷ 232 ∷ 213
          ∷ 67 ∷ 208 ∷ 44 ∷ 218 ∷ 172 ∷ 96 ∷ 66 ∷ 204 ∷ 97 ∷ 168 ∷ 10 ∷ 230 ∷ 152 ∷ 200 ∷ 142 ∷ 38
          ∷ 113 ∷ 100 ∷ [])

abbrev pub m4_bytes : List ℕ
m4_bytes =
    2
    ∷ 3
    ∷ 0
    ∷ 95
    ∷ 2
    ∷ 0x03
    ∷ 0x08
    ∷ 0
    ∷ 0
    ∷ 0
    ∷ 0
    ∷ 0
    ∷ 0
    ∷ 0
    ∷ 0
    ∷ 0
    ∷ 1
    ∷ (zeros 64
        ++ 188 ∷ 30 ∷ 66 ∷ 57 ∷ 65 ∷ 133 ∷ 72 ∷ 98 ∷ 96 ∷ 21 ∷ 109 ∷ 22 ∷ 61 ∷ 106 ∷ 26 ∷ 218 ∷ 0
          ∷ 0 ∷ [])

abbrev pub after_m3 : Supplicant
after_m3 = record keyed {
  group = record no_keys {
    gtk = record { key = replicate 16 0xa0 ++ replicate 16 0; len = 16; key_id = 1 };
  };
  replay = 1;
  complete = true;
}

pub m3_accepted :
    on_frame (zeros 64) (true, zeros 32) 256 m3_bytes keyed ≡ returned (m4_bytes, after_m3)
unfolding absorb_loop add_round_key aes_cmac aes_key_unwrap block_at chain_loop decrypt_block
    decrypt_rounds diff_loop double encrypt_block encrypt_rounds expand_key expand_loop gf128_dbl
    gf_inv gf_mul gf_mul_loop inv_loop inv_mix_column inv_mix_columns inv_sbox inv_sbox_loop
    inv_shift_rows inv_sub_bytes mask_loop mix_column mix_columns num_prev put_block rotl8 round_key
    sbox sbox_entry sbox_loop schedule_word shift_loop shift_rows sub_bytes subkey_of unwrap_row
    unwrap_rows unwrap_step word xor_counter xor_loop read write copy_to header_of header_bytes
    key_packet_of key_packet_bytes gtk_kde vendor_element key_data_loop parse_key_data frame_bytes
    build_reply installed message_3 unsigned unwrap_into handle on_frame
m3_accepted = refl

-- A first message, which has no code, with the counter zero.
abbrev m1_of_anyone : List ℕ
m1_of_anyone = 2 ∷ 3 ∷ 0 ∷ 95 ∷ 2 ∷ 0 ∷ 0x88 ∷ 0 ∷ 16 ∷ zeros 90

abbrev set_back : Supplicant
set_back = record after_m3 { replay = 0 }

-- Where no nonce can be drawn it is refused, but has set the counter back.
counter_set_back :
    on_frame (zeros 64) (false, zeros 32) 256 m1_of_anyone after_m3 ≡ refused set_back
unfolding header_of key_packet_of message_1 handle on_frame
counter_set_back = refl

-- Then the third message from before is accepted again.
m3_accepted_again :
    on_frame (zeros 64) (true, zeros 32) 256 m3_bytes set_back ≡ returned (m4_bytes, after_m3)
unfolding absorb_loop add_round_key aes_cmac aes_key_unwrap block_at chain_loop decrypt_block
    decrypt_rounds diff_loop double encrypt_block encrypt_rounds expand_key expand_loop gf128_dbl
    gf_inv gf_mul gf_mul_loop inv_loop inv_mix_column inv_mix_columns inv_sbox inv_sbox_loop
    inv_shift_rows inv_sub_bytes mask_loop mix_column mix_columns num_prev put_block rotl8 round_key
    sbox sbox_entry sbox_loop schedule_word shift_loop shift_rows sub_bytes subkey_of unwrap_row
    unwrap_rows unwrap_step word xor_counter xor_loop read write copy_to header_of header_bytes
    key_packet_of key_packet_bytes gtk_kde vendor_element key_data_loop parse_key_data frame_bytes
    build_reply installed message_3 unsigned unwrap_into handle on_frame
m3_accepted_again = refl
