-- ===== src/Connect/Eapol/Frame/Layout.antt =====
-- The headers are read back from the bytes that they are written as.
use re_pico.Base.{
  ℕ, ◌+◌, ◌^◌, ◌<◌, ◌≡◌, refl, ap, ◌∙◌, List, ◌++◌, get_or, take, length, length-append, arith,
}
use re_pico.Base.Bytes.{Bytes}
use re_pico.Base.Slices.{take-append_self, drop-append_past, get_or-append_past}
use re_pico.Net.Wire.{be16, be16_number}
use re_pico.Connect.Eapol.Frame.{
  be64, get64, slice, Header, header_of, header_bytes, KeyPacket, key_packet_of, key_packet_bytes,
}

pub record IsHeader (h : Header) : Type 0 where
  pub version : h.version < 256
  pub type : h.type < 256
  pub size : h.size < 65536

pub record IsKeyPacket (k : KeyPacket) : Type 0 where
  pub type : k.type < 256
  pub info : k.info < 65536
  pub keysize : k.keysize < 65536
  pub replay : k.replay < 2 ^ 64
  pub nonce : (length k.nonce ≡ 32) × Bytes k.nonce
  pub iv : (length k.iv ≡ 16) × Bytes k.iv
  pub rsc : (length k.rsc ≡ 8) × Bytes k.rsc
  pub reserved : (length k.reserved ≡ 8) × Bytes k.reserved
  pub mic : (length k.mic ≡ 16) × Bytes k.mic
  pub datalen : k.datalen < 65536

pub header_of-header_bytes : (h : Header) → IsHeader h → header_of (header_bytes h) ≡ h
unfolding header_of header_bytes
header_of-header_bytes h k = rw (be16_number h.size k.size) refl

slice-past : (xs ys : List ℕ) (i j n : ℕ) → length xs + j ≡ i → slice (xs ++ ys) i n ≡ slice ys j n
slice-past xs ys i j n h = ap (take n) (drop-append_past i j xs ys h)

be64_number : (n : ℕ) → n < 2 ^ 64 → get64 (be64 n) 0 ≡ n
be64_number n h = omega arith

-- What follows each field from the nonce on.
module _ (k : KeyPacket) (h : IsKeyPacket k) where
  after_reserved : List ℕ
  after_reserved = k.mic ++ be16 k.datalen

  after_rsc : List ℕ
  after_rsc = k.reserved ++ after_reserved

  after_iv : List ℕ
  after_iv = k.rsc ++ after_rsc

  after_nonce : List ℕ
  after_nonce = k.iv ++ after_iv

  pub length-key_packet_bytes : length (key_packet_bytes k) ≡ 95
  unfolding key_packet_bytes after_nonce after_iv after_rsc after_reserved
  length-key_packet_bytes = omega (
    arith,
    length-append k.nonce after_nonce,
    length-append k.iv after_iv,
    length-append k.rsc after_rsc,
    length-append k.reserved after_reserved,
    length-append k.mic (be16 k.datalen),
    h.nonce.0,
    h.iv.0,
    h.rsc.0,
    h.reserved.0,
    h.mic.0,
  )

  slice_nonce : slice (k.nonce ++ after_nonce) 0 32 ≡ k.nonce
  slice_nonce = take-append_self 32 k.nonce after_nonce h.nonce.0

  slice_iv : slice (k.nonce ++ after_nonce) 32 16 ≡ k.iv
  unfolding after_nonce
  slice_iv =
      slice-past k.nonce after_nonce 32 0 16 (omega (arith, h.nonce.0))
      ∙ take-append_self 16 k.iv after_iv h.iv.0

  slice_rsc : slice (k.nonce ++ after_nonce) 48 8 ≡ k.rsc
  unfolding after_nonce after_iv
  slice_rsc =
      slice-past k.nonce after_nonce 48 16 8 (omega (arith, h.nonce.0))
      ∙ slice-past k.iv after_iv 16 0 8 (omega (arith, h.iv.0))
      ∙ take-append_self 8 k.rsc after_rsc h.rsc.0

  slice_reserved : slice (k.nonce ++ after_nonce) 56 8 ≡ k.reserved
  unfolding after_nonce after_iv after_rsc
  slice_reserved =
      slice-past k.nonce after_nonce 56 24 8 (omega (arith, h.nonce.0))
      ∙ slice-past k.iv after_iv 24 8 8 (omega (arith, h.iv.0))
      ∙ slice-past k.rsc after_rsc 8 0 8 (omega (arith, h.rsc.0))
      ∙ take-append_self 8 k.reserved after_reserved h.reserved.0

  slice_mic : slice (k.nonce ++ after_nonce) 64 16 ≡ k.mic
  unfolding after_nonce after_iv after_rsc after_reserved
  slice_mic =
      slice-past k.nonce after_nonce 64 32 16 (omega (arith, h.nonce.0))
      ∙ slice-past k.iv after_iv 32 16 16 (omega (arith, h.iv.0))
      ∙ slice-past k.rsc after_rsc 16 8 16 (omega (arith, h.rsc.0))
      ∙ slice-past k.reserved after_reserved 8 0 16 (omega (arith, h.reserved.0))
      ∙ take-append_self 16 k.mic (be16 k.datalen) h.mic.0

  datalen_at : (i : ℕ) → get_or (k.nonce ++ after_nonce) (80 + i) 0 ≡ get_or (be16 k.datalen) i 0
  unfolding after_nonce after_iv after_rsc after_reserved
  datalen_at i =
      get_or-append_past (80 + i) (48 + i) k.nonce after_nonce 0 (omega (arith, h.nonce.0))
      ∙ get_or-append_past (48 + i) (32 + i) k.iv after_iv 0 (omega (arith, h.iv.0))
      ∙ get_or-append_past (32 + i) (24 + i) k.rsc after_rsc 0 (omega (arith, h.rsc.0))
      ∙ get_or-append_past (24 + i) (16 + i) k.reserved after_reserved 0
          (omega (arith, h.reserved.0))
      ∙ get_or-append_past (16 + i) i k.mic (be16 k.datalen) 0 (omega (arith, h.mic.0))

  pub key_packet_of-key_packet_bytes : key_packet_of (key_packet_bytes k) ≡ k
  unfolding key_packet_of key_packet_bytes after_nonce after_iv after_rsc after_reserved
  key_packet_of-key_packet_bytes =
      rw
        (
          slice_nonce,
          slice_iv,
          slice_rsc,
          slice_reserved,
          slice_mic,
          datalen_at 0,
          datalen_at 1,
          be16_number k.info h.info,
          be16_number k.keysize h.keysize,
          be16_number k.datalen h.datalen,
          be64_number k.replay h.replay,
        )
        refl
