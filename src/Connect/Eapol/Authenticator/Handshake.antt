-- ===== src/Connect/Eapol/Authenticator/Handshake.antt =====
-- The two ends together.
use re_pico.Base.{
  ℕ, ◌+◌, ◌%◌, ◌^◌, ◌≤◌, ◌<◌, ◌≡◌, ◌≢◌, refl, ap, sym, ◌∙◌, List, [], ◌++◌, Bool, true, some,
  append-nil, length, replicate, arith,
}
use re_pico.Base.Bytes.{Bytes}
use re_pico.Base.Run.{ok}
use re_pico.Base.Outcome.{returned}
use re_pico.Connect.Eapol.Frame.{Header, KeyPacket}
use re_pico.Connect.Eapol.KeyData.Elements.{Element, key_data_bytes, AreElements, install_all}
use re_pico.Connect.Eapol.KeyData.Parsed.{parse_key_data-key_data_bytes}
use re_pico.Connect.Eapol.Ptk.{Ptk, ptk_of, derive_ptk}
use re_pico.Connect.Eapol.Ptk.Order.{
  IsPtk, ptk_bytes, ptk_of-IsPtk, derive_ptk_lem, derive_ptk_comm,
}
use re_pico.Connect.Eapol.Reply.{reply_header, build_reply}
use re_pico.Connect.Eapol.Reply.Signed.{build_reply_lem}
use re_pico.Connect.Eapol.Supplicant.{Supplicant, handle, message_1, on_frame, info_m2}
use re_pico.Connect.Eapol.Supplicant.Accept.{IsFrame, on_frame-frame_bytes}
use re_pico.Connect.Eapol.Supplicant.Safe.{IsConfigured}
use re_pico.Connect.Eapol.Authenticator.{sent_packet, info_m1, m1_frame, m3_frame}
use re_pico.Connect.Eapol.Authenticator.Sent.{
  sent_packet-IsKeyPacket, zero_mic, IsKeyed, on_frame-m3_frame,
}

-- The supplicant after a first message.
abbrev pub after_m1 : Supplicant → ℕ → List ℕ → List ℕ → Supplicant
after_m1 s replay anonce snonce = record s {
  anonce = anonce;
  snonce = snonce;
  replay = replay;
  ptk = ptk_of (ptk_bytes s.pmk s.aa s.spa anonce snonce);
  ptk_done = true;
}

module _ (s : Supplicant) (c : IsConfigured s) (replay : ℕ) (anonce snonce : List ℕ)
    (hr : replay < 2 ^ 64) (ha : (length anonce ≡ 32) × Bytes anonce)
    (hs : (length snonce ≡ 32) × Bytes snonce) where
  after_m1-IsKeyed : IsKeyed (after_m1 s replay anonce snonce)
  unfolding IsPtk
  after_m1-IsKeyed =
      let keys = ptk_of-IsPtk s.pmk s.aa s.spa anonce snonce in
      record { keyed = refl; kck = keys.0; kek = keys.1; anonce = ha }

  answered :
      (junk : List ℕ) (capacity : ℕ) (h : Header) {m2 : List ℕ}
      → derive_ptk junk s.pmk s.aa s.spa anonce snonce
        ≡ ok (ptk_of (ptk_bytes s.pmk s.aa s.spa anonce snonce))
      → build_reply capacity h.version info_m2 replay
          (some snonce)
          s.rsn_ie
          (ptk_of (ptk_bytes s.pmk s.aa s.spa anonce snonce)).kck
        ≡ ok m2
      → message_1 junk (true, snonce) capacity h (sent_packet info_m1 replay anonce []) s
        ≡ returned (m2, after_m1 s replay anonce snonce)
  unfolding message_1
  answered junk capacity h derived built = rw (derived, built) refl

  -- A first message makes the supplicant derive the keys of both nonces and answer.
  pub on_frame-m1_frame :
      (junk : List ℕ) (capacity version : ℕ) (rest : List ℕ)
      → length junk ≡ 64
      → version < 256
      → 99 + length s.rsn_ie ≤ capacity
      → (m2 : List ℕ) × (on_frame junk
            (true, snonce)
            capacity
            (m1_frame version replay anonce ++ rest)
            s
          ≡ returned (m2, after_m1 s replay anonce snonce))
  unfolding m1_frame handle
  on_frame-m1_frame junk capacity version rest hj hv room =
      let h : Header = reply_header version [] in
      let p : KeyPacket = sent_packet info_m1 replay anonce [] in
      let hp =
        sent_packet-IsKeyPacket info_m1 replay anonce [] (replicate 16 0) (omega arith) hr ha
          zero_mic (omega arith) in
      let f : IsFrame h p [] = record {
        header = record { version = hv; type = omega arith; size = omega arith };
        packet = hp;
        key_frame = refl;
        rsn_frame = refl;
        data_size = refl;
        pairwise = refl;
      } in
      let built =
        build_reply_lem capacity version info_m2 replay (some snonce) s.rsn_ie
          (ptk_of (ptk_bytes s.pmk s.aa s.spa anonce snonce)).kck hv (omega arith) hr hs c.rsn_ie
          (after_m1-IsKeyed.kck.1) room c.short in
      (
        _,
        on_frame-frame_bytes junk (true, snonce) capacity s h p [] rest f
            ∙ answered junk capacity h
                (derive_ptk_lem junk s.pmk s.aa s.spa anonce snonce hj c.pmk
                  (omega (arith, c.aa, c.spa)) (omega (arith, ha.0, hs.0)))
                built,
      )

  -- A handshake with a third message whose key data this supplicant can parse: elements with a group
  -- key among them and at most one byte of padding, in all a multiple of eight bytes, at least 16 and
  -- at most 512. The supplicant takes the first message and that third one, with a higher replay
  -- counter, of an authenticator that has derived its keys from the same key and nonces, with its own
  -- address and nonce first. Where the generator yields a nonce and the span for the replies is large
  -- enough, both messages are answered; in the end both ends have the same keys, and the supplicant
  -- has the group keys of the elements that the authenticator has sent and is complete.
  pub handshake_lem :
      (junk junk' : List ℕ) (drawn : Bool × List ℕ) (capacity version replay' : ℕ)
      (es : List Element) (pad : List ℕ)
      → length junk ≡ 64
      → length junk' ≡ 64
      → version < 256
      → 99 + length s.rsn_ie ≤ capacity
      → replay < replay'
      → replay' < 2 ^ 64
      → AreElements es
      → (install_all es s.group).gtk.len ≢ 0
      → length pad ≤ 1
      → Bytes (key_data_bytes es ++ pad)
      → length (key_data_bytes es ++ pad) % 8 ≡ 0
      → 16 ≤ length (key_data_bytes es ++ pad)
      → length (key_data_bytes es ++ pad) ≤ 512
      → (ptk : Ptk) × (m2 : List ℕ) × (m3 : List ℕ) × (m4 : List ℕ) × (s1 : Supplicant)
        × (s2 : Supplicant) × (on_frame junk
              (true, snonce)
              capacity
              (m1_frame version replay anonce)
              s
            ≡ returned (m2, s1))
        × (derive_ptk junk' s.pmk s.spa s.aa snonce anonce ≡ ok ptk)
        × (m3_frame version ptk replay' anonce (key_data_bytes es ++ pad) ≡ ok m3)
        × (on_frame junk drawn capacity m3 s1 ≡ returned (m4, s2))
        × (s2.ptk ≡ ptk)
        × (s2.group ≡ install_all es s.group)
        × (s2.complete ≡ true)
  handshake_lem junk junk' drawn capacity version replay' es pad hj hj' hv room later hr' he hl hp
        hb whole blocks fits =
      let s1 : Supplicant = after_m1 s replay anonce snonce in
      let (m2, first) = on_frame-m1_frame junk capacity version [] hj hv room in
      let (m3, m4, e, third) =
        on_frame-m3_frame s1 after_m1-IsKeyed version replay' (key_data_bytes es ++ pad) hv later
          hr' hb whole blocks (omega (arith, fits)) (install_all es s.group)
          (parse_key_data-key_data_bytes es s.group he c.group pad hp hl) fits junk drawn capacity
          [] (omega (arith, room)) in
      (
        ptk_of (ptk_bytes s.pmk s.aa s.spa anonce snonce),
        m2,
        m3,
        m4,
        s1,
        record s1 { group = install_all es s.group; replay = replay'; complete = true },
        ap (λ (f : List ℕ). on_frame junk (true, snonce) capacity f s)
              (sym (append-nil (m1_frame version replay anonce)))
            ∙ first,
        derive_ptk_comm junk' s.pmk s.aa s.spa anonce snonce (c.aa ∙ sym c.spa) (ha.0 ∙ sym hs.0)
            ∙ derive_ptk_lem junk' s.pmk s.aa s.spa anonce snonce hj' c.pmk
                (omega (arith, c.aa, c.spa)) (omega (arith, ha.0, hs.0)),
        e,
        ap (λ (f : List ℕ). on_frame junk drawn capacity f s1) (sym (append-nil m3)) ∙ third,
        refl,
        refl,
        refl,
      )
