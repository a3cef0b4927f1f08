-- ===== src/Connect/Eapol/Supplicant.antt =====
-- `Supplicant` of submodules/re-connect/src/connect/eapol.hpp and its `on_frame` of eapol.cpp.
-- A refusal is the return of 0, with the supplicant as it is then; otherwise the bytes of the
-- reply are returned with it. `capacity` is the size of the span for the reply; `drawn` is what the
-- random number generator yields in this call: whether it succeeds, and the bytes that the nonce
-- holds after it. `junk` is what the hash's block buffer holds before.
pub mod Accept
pub mod Replay
pub mod Safe
use re_pico.Base.{
  ℕ, ◌+◌, ◌-◌, ◌%◌, List, [], ◌∷◌, ◌++◌, Bool, true, false, ◌&&◌, not, Option, none, some, bit_and,
  ◌>>◌, ◌==◌, ltb, leb, take, drop, length, replicate, if◌then◌else◌,
}
use re_pico.Base.Run.{Run, ok, fault}
use re_pico.Base.Outcome.{
  Outcome, returned, refused, faulted, exhausted, ◌>>=◌, ensure, attempt, read_span,
}
use re_pico.Crypto.Aes.{expand_key}
use re_pico.Crypto.Cmac.{aes_cmac}
use re_pico.Crypto.KeyWrap.{aes_key_unwrap}
use re_pico.Connect.Eapol.Frame.{
  Header, header_of, KeyPacket, key_packet_of, type_rsn, type_key, info_pairwise, info_ack,
  info_mic, info_secure, info_encrypted,
}
use re_pico.Connect.Eapol.KeyData.{GroupKeys, same_bytes, parse_key_data}
use re_pico.Connect.Eapol.Ptk.{Ptk, derive_ptk}
use re_pico.Connect.Eapol.Reply.{build_reply}

pub record Supplicant : Type 0 where
  pub pmk : List ℕ
  pub rsn_ie : List ℕ
  pub aa : List ℕ
  pub spa : List ℕ
  pub ptk : Ptk
  pub group : GroupKeys
  pub ptk_done : Bool
  pub complete : Bool
  pub anonce : List ℕ
  pub snonce : List ℕ
  pub replay : ℕ

abbrev pub Reply : Type 0
Reply = Outcome Supplicant (List ℕ × Supplicant)

-- `BF(...)` of the replies.
abbrev pub info_m2 : ℕ
info_m2 = 0x108

abbrev pub info_m4 : ℕ
info_m4 = 0x308

unfoldable pub message_1 : List ℕ → Bool × List ℕ → ℕ → Header → KeyPacket → Supplicant → Reply
message_1 junk drawn capacity header kp s = do
  _ ← ensure (not (bit_and kp.info info_ack == 0)) s
  let fresh = record s { anonce = kp.nonce; replay = kp.replay; snonce = drawn.1 }
  _ ← ensure drawn.0 fresh
  ptk ← attempt (derive_ptk junk s.pmk s.aa s.spa kp.nonce drawn.1) fresh
  let keyed = record fresh { ptk = ptk; ptk_done = true }
  m2 ←
      attempt
        (build_reply capacity header.version info_m2 kp.replay (some drawn.1) s.rsn_ie ptk.kck)
        keyed
  returned (m2, keyed)

-- The frame up to the end of its key data, without its code.
unfoldable pub unsigned : List ℕ → ℕ → List ℕ
unsigned frame datalen = take 81 frame ++ (replicate 16 0 ++ take datalen (drop 97 frame))

-- The array for the key data has 512 bytes, all of which the unwrapping writes first.
unfoldable pub unwrap_into : ℕ → List ℕ → List ℕ → Run (List ℕ)
unwrap_into room kek kd = if leb (length kd - 8) room then aes_key_unwrap kek kd else fault

-- After the parsing of the key data, on its outcome.
unfoldable pub installed : ℕ → Header → KeyPacket → Supplicant → Outcome GroupKeys GroupKeys → Reply
installed capacity header kp s faulted = faulted
installed capacity header kp s exhausted = exhausted
installed capacity header kp s (refused group) = refused (record s { group = group })
installed capacity header kp s (returned group) = do
  let keyed = record s { group = group; replay = kp.replay }
  m4 ←
      attempt (build_reply capacity header.version info_m4 kp.replay none [] s.ptk.kck)
        (record keyed { complete = false })
  returned (m4, record keyed { complete = true })

unfoldable pub message_3 : ℕ → List ℕ → Header → KeyPacket → List ℕ → Supplicant → Reply
message_3 capacity frame header kp kd s = do
  _ ← ensure s.ptk_done s
  _ ← ensure (not (bit_and kp.info info_encrypted == 0)) s
  _ ← ensure (same_bytes kp.nonce s.anonce) s
  _ ← ensure (ltb s.replay kp.replay) s
  mic ← attempt (aes_cmac (expand_key s.ptk.kck) (unsigned frame (2 + kp.datalen))) s
  _ ← ensure (same_bytes kp.mic mic) s
  _ ← ensure (leb 24 (length kd) && (length kd % 8 == 0)) s
  plain ← attempt (unwrap_into 512 (expand_key s.ptk.kek) kd) s
  installed capacity header kp s (parse_key_data plain s.group)

-- The first message of a handshake has no code.
unfoldable pub handle :
    List ℕ → Bool × List ℕ → ℕ → List ℕ → Header → KeyPacket → List ℕ → Supplicant → Reply
handle junk drawn capacity frame header kp kd s =
    if bit_and kp.info info_mic == 0
    then message_1 junk drawn capacity header kp s
    else message_3 capacity frame header kp kd s

unfoldable pub on_frame : List ℕ → Bool × List ℕ → ℕ → List ℕ → Supplicant → Reply
on_frame junk drawn capacity frame s = do
  (head, r) ← read_span 4 frame s
  (body, r') ← read_span 95 r s
  let header = header_of head
  let kp = key_packet_of body
  _ ← ensure (header.type == type_key) s
  _ ← ensure (kp.type == type_rsn) s
  (kd, rest) ← read_span kp.datalen r' s
  _ ← ensure (bit_and kp.info info_pairwise >> 3 == 1) s
  handle junk drawn capacity frame header kp kd s
