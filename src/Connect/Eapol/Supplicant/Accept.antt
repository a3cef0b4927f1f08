-- ===== src/Connect/Eapol/Supplicant/Accept.antt =====
-- A frame that is well formed reaches its handler, and a third message that an authenticator with
-- the same keys writes is accepted.
use re_pico.Base.{
  ℕ, ◌+◌, ◌-◌, ◌%◌, ◌≤◌, ◌<◌, ◌≡◌, refl, ap, sym, ◌∙◌, List, [], ◌∷◌, ◌++◌, Bool, true, false, ◌&&◌,
  none, bit_and, ◌>>◌, ◌==◌, lt→ltb, leb, le→leb, lt→leb, length, replicate, arith, append_assoc,
}
use re_pico.Base.Run.{ok}
use re_pico.Base.Outcome.{returned, faulted, attempt, ◌>>=◌, read_span-append}
use re_pico.Crypto.Aes.{expand_key}
use re_pico.Crypto.Cmac.{aes_cmac}
use re_pico.Crypto.KeyWrap.{aes_key_unwrap}
use re_pico.Connect.Eapol.Frame.{
  Header, header_bytes, KeyPacket, key_packet_bytes, info_pairwise, info_mic, info_encrypted,
}
use re_pico.Connect.Eapol.Frame.Layout.{
  IsHeader, IsKeyPacket, header_of-header_bytes, length-key_packet_bytes,
  key_packet_of-key_packet_bytes,
}
use re_pico.Connect.Eapol.KeyData.{GroupKeys, same_bytes, parse_key_data}
use re_pico.Connect.Eapol.Reply.{frame_bytes, build_reply}
use re_pico.Connect.Eapol.Reply.Signed.{signed, resigned}
use re_pico.Connect.Eapol.Supplicant.{
  Supplicant, message_3, unsigned, unwrap_into, installed, handle, on_frame, info_m4,
}

pub same_bytes_self : (xs : List ℕ) → same_bytes xs xs ≡ true
same_bytes_self [] = refl
same_bytes_self (x ∷ xs) = ground (arith, same_bytes_self xs)

-- A frame of a pairwise handshake, as its sender writes it.
pub record IsFrame (h : Header) (k : KeyPacket) (kd : List ℕ) : Type 0 where
  pub header : IsHeader h
  pub packet : IsKeyPacket k
  pub key_frame : h.type ≡ 3
  pub rsn_frame : k.type ≡ 2
  pub data_size : k.datalen ≡ length kd
  pub pairwise : (bit_and k.info info_pairwise >> 3 == 1) ≡ true

length-header_bytes : (h : Header) → length (header_bytes h) ≡ 4
unfolding header_bytes
length-header_bytes h = refl

frame_tail :
    (h : Header) (k : KeyPacket) (kd rest : List ℕ)
    → frame_bytes h k kd ++ rest ≡ header_bytes h ++ (key_packet_bytes k ++ (kd ++ rest))
unfolding frame_bytes
frame_tail h k kd rest =
    append_assoc (header_bytes h) (key_packet_bytes k ++ kd) rest
    ∙ ap (◌++◌ (header_bytes h)) (append_assoc (key_packet_bytes k) kd rest)

module _ (junk : List ℕ) (drawn : Bool × List ℕ) (capacity : ℕ) (s : Supplicant) where
  -- Each frame of the handshake is handled by the message that its code bit says, whatever follows
  -- it in the received bytes.
  pub on_frame-frame_bytes :
      (h : Header) (k : KeyPacket) (kd rest : List ℕ)
      → IsFrame h k kd
      → on_frame junk drawn capacity (frame_bytes h k kd ++ rest) s
        ≡ handle junk drawn capacity (frame_bytes h k kd ++ rest) h k kd s
  unfolding on_frame
  on_frame-frame_bytes h k kd rest f =
      let tail : List ℕ = key_packet_bytes k ++ (kd ++ rest) in
      let split : frame_bytes h k kd ++ rest ≡ header_bytes h ++ tail = frame_tail h k kd rest in
      rw
        (
          split,
          read_span-append s 4 (header_bytes h) tail (length-header_bytes h),
          read_span-append s 95 (key_packet_bytes k) (kd ++ rest)
              (length-key_packet_bytes k f.packet),
          header_of-header_bytes h f.header,
          key_packet_of-key_packet_bytes k f.packet,
          f.key_frame,
          f.rsn_frame,
          read_span-append s k.datalen kd rest (sym f.data_size),
          f.pairwise,
        )
        (refl)

-- What an authenticator that has the same keys puts into a third message for this supplicant.
pub record IsMessage3 (s : Supplicant) (h : Header) (k : KeyPacket) (kd plain : List ℕ)
    : Type 0 where
  pub frame : IsFrame h k kd
  pub coded : (bit_and k.info info_mic == 0) ≡ false
  pub encrypted : (bit_and k.info info_encrypted == 0) ≡ false
  pub keyed : s.ptk_done ≡ true
  pub nonce : k.nonce ≡ s.anonce
  pub later : s.replay < k.replay
  pub code :
      aes_cmac (expand_key s.ptk.kck) (frame_bytes h (signed k (replicate 16 0)) kd) ≡ ok k.mic
  pub unwrapped : aes_key_unwrap (expand_key s.ptk.kek) kd ≡ ok plain
  pub whole : length kd % 8 ≡ 0
  pub blocks : 24 ≤ length kd

module _ (capacity : ℕ) (s : Supplicant) (h : Header) (k : KeyPacket) (kd plain rest : List ℕ)
    (m : IsMessage3 s h k kd plain) where
  -- The message passes every check up to the unwrapping.
  checked : message_3 capacity (frame_bytes h k kd ++ rest) h k kd s ≡ (
      attempt (unwrap_into 512 (expand_key s.ptk.kek) kd) s >>= λ (plain' : List ℕ).
      installed capacity h k s (parse_key_data plain' s.group))
  unfolding message_3 unsigned
  checked =
      let sizes : (leb 24 (length kd) && (length kd % 8 == 0)) ≡ true =
        ground (arith, m.blocks, m.whole) in
      let same : same_bytes k.nonce s.anonce ≡ true =
        ap (same_bytes k.nonce) (sym m.nonce) ∙ same_bytes_self k.nonce in
      simp
        (
          m.keyed,
          m.encrypted,
          same,
          lt→ltb s.replay k.replay m.later,
          resigned h k kd rest (replicate 16 0) (2 + k.datalen) m.frame.packet
              (ap (◌+◌ 2) (sym m.frame.data_size)),
          m.code,
          same_bytes_self k.mic,
          sizes,
        )
        refl

  pub message_3-accepts :
      (group : GroupKeys) (m4 : List ℕ)
      → length kd ≤ 520
      → parse_key_data plain s.group ≡ returned group
      → build_reply capacity h.version info_m4 k.replay none [] s.ptk.kck ≡ ok m4
      → message_3 capacity (frame_bytes h k kd ++ rest) h k kd s
        ≡ returned (m4, record s { group = group; replay = k.replay; complete = true })
  unfolding unwrap_into installed
  message_3-accepts group m4 room hg hr =
      checked ∙ rw (le→leb (length kd - 8) 512 (omega (arith, room)), m.unwrapped, hg, hr) refl

  -- Key data that is longer than the array for it is written past the end of the array.
  pub message_3-overflows :
      520 < length kd → message_3 capacity (frame_bytes h k kd ++ rest) h k kd s ≡ faulted
  unfolding unwrap_into
  message_3-overflows over = checked ∙ rw (lt→leb (length kd - 8) 512 (omega (arith, over))) refl
