-- ===== src/Connect/Eapol/Reply.antt =====
-- `build_reply` of submodules/re-connect/src/connect/eapol.cpp. The result is the bytes at the
-- front of the span that is written, of `capacity` bytes; nothing is written where it fails.
pub mod Signed
use re_pico.Base.{ℕ, ◌+◌, ◌-◌, List, [], ◌++◌, Option, none, some, u16, leb, length, replicate}
use re_pico.Base.Run.{Run, ok, ◌>>=◌, ensure}
use re_pico.Crypto.Aes.{expand_key}
use re_pico.Crypto.Cmac.{aes_cmac}
use re_pico.Connect.Eapol.Frame.{
  Header, header_bytes, KeyPacket, key_packet_bytes, type_rsn, type_key,
}

-- A span that is not valid is `none`; the nonce then keeps its zeros.
abbrev pub nonce_or_zeros : Option (List ℕ) → List ℕ
nonce_or_zeros none = replicate 32 0
nonce_or_zeros (some nonce) = nonce

abbrev pub reply_header : ℕ → List ℕ → Header
reply_header version key_data = record {
  version = version;
  type = type_key;
  size = u16 (95 + length key_data);
}

abbrev pub reply_packet : ℕ → ℕ → Option (List ℕ) → List ℕ → KeyPacket
reply_packet info replay given key_data = record {
  type = type_rsn;
  info = info;
  keysize = 0;
  replay = replay;
  nonce = nonce_or_zeros given;
  iv = replicate 16 0;
  rsc = replicate 8 0;
  reserved = replicate 8 0;
  mic = replicate 16 0;
  datalen = u16 (length key_data);
}

unfoldable pub frame_bytes : Header → KeyPacket → List ℕ → List ℕ
frame_bytes header packet key_data = header_bytes header ++ (key_packet_bytes packet ++ key_data)

unfoldable pub build_reply : ℕ → ℕ → ℕ → ℕ → Option (List ℕ) → List ℕ → List ℕ → Run (List ℕ)
build_reply capacity version info replay given key_data kck = do
  _ ← ensure (leb 4 capacity)
  _ ← ensure (leb 95 (capacity - 4))
  _ ← ensure (leb (length key_data) (capacity - 99))
  let header = reply_header version key_data
  let packet = reply_packet info replay given key_data
  mic ← aes_cmac (expand_key kck) (frame_bytes header packet key_data)
  ok (frame_bytes header (record packet { mic = mic }) key_data)
