-- ===== src/Connect/Eapol/Authenticator/Sent.antt =====
-- A third message of an authenticator, and what the supplicant makes of it.
use re_pico.Base.{
  ℕ, ◌+◌, ◌%◌, ◌^◌, ◌≤◌, ◌<◌, ◌≡◌, refl, ap, ◌∙◌, List, [], ◌++◌, Bool, true, none, length,
  replicate, arith,
}
use re_pico.Base.Bytes.{Bytes, All-replicate}
use re_pico.Base.Run.{ok}
use re_pico.Base.Outcome.{returned, faulted}
use re_pico.Crypto.Aes.{expand_key}
use re_pico.Crypto.Aes.Schedule.{expand_key-Bytes}
use re_pico.Crypto.Cmac.{aes_cmac}
use re_pico.Crypto.Cmac.Spec.{cmac_of, cmac_of-IsBlock, aes_cmac_lem}
use re_pico.Crypto.KeyWrap.RoundTrip.{wrapped}
use re_pico.Connect.Eapol.Frame.{Header, KeyPacket}
use re_pico.Connect.Eapol.Frame.Layout.{IsHeader, IsKeyPacket}
use re_pico.Connect.Eapol.KeyData.{GroupKeys, parse_key_data}
use re_pico.Connect.Eapol.Ptk.Order.{IsKey}
use re_pico.Connect.Eapol.Reply.{frame_bytes, reply_header, build_reply}
use re_pico.Connect.Eapol.Reply.Signed.{
  signed, length-frame_bytes, frame_bytes-Bytes, build_reply_lem,
}
use re_pico.Connect.Eapol.Supplicant.{Supplicant, handle, on_frame, info_m4}
use re_pico.Connect.Eapol.Supplicant.Accept.{
  IsMessage3, on_frame-frame_bytes, message_3-accepts, message_3-overflows,
}
use re_pico.Connect.Eapol.Authenticator.{sent_packet, info_m3, m3_frame}

pub sent_packet-IsKeyPacket :
    (info replay : ℕ) (nonce kd mic : List ℕ)
    → info < 65536
    → replay < 2 ^ 64
    → (length nonce ≡ 32) × Bytes nonce
    → (length mic ≡ 16) × Bytes mic
    → length kd < 65536
    → IsKeyPacket (signed (sent_packet info replay nonce kd) mic)
sent_packet-IsKeyPacket info replay nonce kd mic hi hr hn hm hd = record {
  type = omega arith;
  info = hi;
  keysize = omega arith;
  replay = hr;
  nonce = hn;
  iv = (refl, All-replicate (λ b. b < 256) 16 0 (omega arith));
  rsc = (refl, All-replicate (λ b. b < 256) 8 0 (omega arith));
  reserved = (refl, All-replicate (λ b. b < 256) 8 0 (omega arith));
  mic = hm;
  datalen = hd;
}

pub zero_mic : (length (replicate {A = ℕ} 16 0) ≡ 16) × Bytes (replicate 16 0)
zero_mic = (refl, All-replicate (λ b. b < 256) 16 0 (omega arith))

-- A supplicant that has derived keys: what it holds are bytes of the right number.
pub record IsKeyed (s : Supplicant) : Type 0 where
  pub keyed : s.ptk_done ≡ true
  pub kck : IsKey s.ptk.kck
  pub kek : IsKey s.ptk.kek
  pub anonce : (length s.anonce ≡ 32) × Bytes s.anonce

module _ (s : Supplicant) (k : IsKeyed s) (version replay : ℕ) (plain : List ℕ) (hv : version < 256)
    (later : s.replay < replay) (hr : replay < 2 ^ 64) (hb : Bytes plain)
    (whole : length plain % 8 ≡ 0) (blocks : 16 ≤ length plain) (room : length plain ≤ 65000) where
  -- The frame that an authenticator with the same keys sends.
  sent :
      (h : Header) × (p : KeyPacket) × (kd : List ℕ) × (length kd ≡ length plain + 8)
      × (m3_frame version s.ptk replay s.anonce plain ≡ ok (frame_bytes h p kd))
      × IsMessage3 s h p kd plain
      × (h.version ≡ version)
      × (p.replay ≡ replay)
  unfolding m3_frame
  sent =
      let (kd, e, bytes, size, back) =
        wrapped (expand_key s.ptk.kek) plain (expand_key-Bytes s.ptk.kek k.kek.1) hb whole blocks in
      let h : Header = reply_header version kd in
      let p : KeyPacket = sent_packet info_m3 replay s.anonce kd in
      let hp =
        sent_packet-IsKeyPacket info_m3 replay s.anonce kd (replicate 16 0) (omega arith) hr
          k.anonce zero_mic (omega (arith, size)) in
      let hh : IsHeader h = record { version = hv; type = omega arith; size = omega arith } in
      let hk = expand_key-Bytes s.ptk.kck k.kck.1 in
      let message = frame_bytes-Bytes h p kd hh hp bytes in
      let mic : List ℕ = cmac_of (expand_key s.ptk.kck) (frame_bytes h p kd) in
      let code : aes_cmac (expand_key s.ptk.kck) (frame_bytes h p kd) ≡ ok mic =
        aes_cmac_lem (expand_key s.ptk.kck) (frame_bytes h p kd) hk message
          (omega (arith, length-frame_bytes h p kd hp, size)) in
      (
        h,
        signed p mic,
        kd,
        size,
        rw (e, code) refl,
        record {
          frame = record {
            header = hh;
            packet =
                sent_packet-IsKeyPacket info_m3 replay s.anonce kd mic (omega arith) hr k.anonce
                  (cmac_of-IsBlock (expand_key s.ptk.kck) (frame_bytes h p kd) hk message)
                  (omega (arith, size));
            key_frame = refl;
            rsn_frame = refl;
            data_size = refl;
            pairwise = refl;
          };
          coded = refl;
          encrypted = refl;
          keyed = k.keyed;
          nonce = refl;
          later = later;
          code = code;
          unwrapped = back;
          whole = omega (arith, size, whole);
          blocks = omega (arith, size);
        },
        refl,
        refl,
      )

  -- The third message of an authenticator with the same keys, under a newer replay counter, is
  -- accepted, whatever follows it in the received bytes: the supplicant takes over the group keys
  -- of its key data and the counter, is complete, and answers.
  pub on_frame-m3_frame :
      (group : GroupKeys)
      → parse_key_data plain s.group ≡ returned group
      → length plain ≤ 512
      → (junk : List ℕ) (drawn : Bool × List ℕ) (capacity : ℕ) (rest : List ℕ) → 99 ≤ capacity
      → (m3 : List ℕ) × (m4 : List ℕ) × (m3_frame version s.ptk replay s.anonce plain ≡ ok m3)
        × (on_frame junk drawn capacity (m3 ++ rest) s
            ≡ returned (m4, record s { group = group; replay = replay; complete = true }))
  unfolding handle
  on_frame-m3_frame group hg fits junk drawn capacity rest hc =
      let (h, p, kd, size, e, m, ev, er) = sent in
      let (m4, built) : (m4 : List ℕ) × (build_reply capacity h.version info_m4 p.replay none []
              s.ptk.kck
            ≡ ok m4) =
        (
          _,
          build_reply_lem capacity h.version info_m4 p.replay none [] s.ptk.kck
              m.frame.header.version (omega arith) m.frame.packet.replay
              (refl, All-replicate (λ b. b < 256) 32 0 (omega arith)) tt k.kck.1 (omega arith)
              (omega arith),
        ) in
      (
        frame_bytes h p kd,
        m4,
        e,
        on_frame-frame_bytes junk drawn capacity s h p kd rest m.frame
            ∙ rw m.coded (
                message_3-accepts capacity s h p kd plain rest m group m4
                  (omega (arith, size, fits)) hg built)
            ∙ ap (λ (n : ℕ). returned (m4, record s { group = group; replay = n; complete = true }))
                er,
      )

  -- A third message whose key data is longer than 512 bytes, valid in all else, makes the
  -- supplicant write behind the array that it unwraps the key data into.
  pub on_frame-m3_overflow :
      512 < length plain
      → (junk : List ℕ) (drawn : Bool × List ℕ) (capacity : ℕ) (rest : List ℕ)
      → (m3 : List ℕ) × (m3_frame version s.ptk replay s.anonce plain ≡ ok m3)
        × (on_frame junk drawn capacity (m3 ++ rest) s ≡ faulted)
  unfolding handle
  on_frame-m3_overflow over junk drawn capacity rest =
      let (h, p, kd, size, e, m, ev, er) = sent in
      (
        frame_bytes h p kd,
        e,
        on_frame-frame_bytes junk drawn capacity s h p kd rest m.frame
            ∙ rw m.coded
                (message_3-overflows capacity s h p kd plain rest m (omega (arith, size, over))),
      )
