-- ===== src/Connect/Eapol/Frame.antt =====
-- submodules/re-connect/src/connect/dot1x.hpp: the headers of an EAPOL-Key frame. The structs are
-- packed and read in place; a field of several bytes stands for its number after `byteswap`.
pub mod Layout
use re_pico.Base.{ℕ, ◌+◌, ◌*◌, ◌/◌, ◌^◌, List, [], ◌∷◌, ◌++◌, u8, get_or, take, drop}
use re_pico.Net.Wire.{be16, be32, get16, get32}

abbrev pub be64 : ℕ → List ℕ
be64 n = be32 (n / 2 ^ 32) ++ be32 n

abbrev pub get64 : List ℕ → ℕ → ℕ
get64 xs i = get32 xs i * 2 ^ 32 + get32 xs (i + 4)

abbrev pub slice : List ℕ → ℕ → ℕ → List ℕ
slice xs i n = take n (drop i xs)

-- `dot1x::Header`, four bytes.
pub record Header : Type 0 where
  pub version : ℕ
  pub type : ℕ
  pub size : ℕ

unfoldable pub header_of : List ℕ → Header
header_of xs = record { version = get_or xs 0 0; type = get_or xs 1 0; size = get16 xs 2 }

unfoldable pub header_bytes : Header → List ℕ
header_bytes h = h.version ∷ h.type ∷ be16 h.size

-- `dot1x::KeyPacket`, 95 bytes.
pub record KeyPacket : Type 0 where
  pub type : ℕ
  pub info : ℕ
  pub keysize : ℕ
  pub replay : ℕ
  pub nonce : List ℕ
  pub iv : List ℕ
  pub rsc : List ℕ
  pub reserved : List ℕ
  pub mic : List ℕ
  pub datalen : ℕ

unfoldable pub key_packet_of : List ℕ → KeyPacket
key_packet_of xs = record {
  type = get_or xs 0 0;
  info = get16 xs 1;
  keysize = get16 xs 3;
  replay = get64 xs 5;
  nonce = slice xs 13 32;
  iv = slice xs 45 16;
  rsc = slice xs 61 8;
  reserved = slice xs 69 8;
  mic = slice xs 77 16;
  datalen = get16 xs 93;
}

unfoldable pub key_packet_bytes : KeyPacket → List ℕ
key_packet_bytes k =
    (k.type ∷ (be16 k.info ++ (be16 k.keysize ++ be64 k.replay)))
    ++ (k.nonce ++ (k.iv ++ (k.rsc ++ (k.reserved ++ (k.mic ++ be16 k.datalen)))))

-- `KeyPacket::Type`, `Header::Type` and the bits of `KeyPacket::Info`.
abbrev pub type_rsn : ℕ
type_rsn = 2

abbrev pub type_key : ℕ
type_key = 3

abbrev pub info_pairwise : ℕ
info_pairwise = 0x08

abbrev pub info_ack : ℕ
info_ack = 0x80

abbrev pub info_mic : ℕ
info_mic = 0x100

abbrev pub info_secure : ℕ
info_secure = 0x200

abbrev pub info_encrypted : ℕ
info_encrypted = 0x1000
