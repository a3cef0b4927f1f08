-- ===== src/Connect/Eapol/Authenticator.antt =====
-- The other end of the handshake, of which the repository has only a test: what an access point
-- sends, by IEEE 802.11, 12.7.6. It stands here as the description that the supplicant is held
-- against.
pub mod Sent
pub mod Handshake
use re_pico.Base.{ℕ, ◌+◌, List, [], ◌++◌, replicate, length, u16}
use re_pico.Base.Run.{Run, ok, ◌>>=◌}
use re_pico.Crypto.Aes.{expand_key}
use re_pico.Crypto.Cmac.{aes_cmac}
use re_pico.Crypto.KeyWrap.{aes_key_wrap}
use re_pico.Connect.Eapol.Frame.{Header, KeyPacket, type_rsn, type_key}
use re_pico.Connect.Eapol.Ptk.{Ptk}
use re_pico.Connect.Eapol.Reply.{frame_bytes, reply_header, reply_packet}
use re_pico.Connect.Eapol.Reply.Signed.{signed}

-- A key packet from the authenticator, without its code.
abbrev pub sent_packet : ℕ → ℕ → List ℕ → List ℕ → KeyPacket
sent_packet info replay nonce kd = record {
  type = type_rsn;
  info = info;
  keysize = 16;
  replay = replay;
  nonce = nonce;
  iv = replicate 16 0;
  rsc = replicate 8 0;
  reserved = replicate 8 0;
  mic = replicate 16 0;
  datalen = length kd;
}

-- Pairwise, Ack.
abbrev pub info_m1 : ℕ
info_m1 = 0x0088

-- Pairwise, Install, Ack, Mic, Secure, EncrKeyData.
abbrev pub info_m3 : ℕ
info_m3 = 0x13c8

unfoldable pub m1_frame : ℕ → ℕ → List ℕ → List ℕ
m1_frame version replay nonce =
    frame_bytes (reply_header version []) (sent_packet info_m1 replay nonce []) []

unfoldable pub m3_frame : ℕ → Ptk → ℕ → List ℕ → List ℕ → Run (List ℕ)
m3_frame version ptk replay nonce plain = do
  kd ← aes_key_wrap (expand_key ptk.kek) plain
  let header = reply_header version kd
  let packet = sent_packet info_m3 replay nonce kd
  mic ← aes_cmac (expand_key ptk.kck) (frame_bytes header packet kd)
  ok (frame_bytes header (signed packet mic) kd)
