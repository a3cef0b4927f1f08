-- ===== src/Connect/Eapol/Reply/Signed.antt =====
-- Where the code of a frame stands in it, and replies that are built.
use re_pico.Base.{
  ℕ, ◌+◌, ◌-◌, ◌^◌, ◌≤◌, ◌<◌, ◌≡◌, refl, ap, ◌∙◌, List, ◌∷◌, ◌++◌, take, drop, length,
  length-append, arith, append_assoc, le→leb, Option,
}
use re_pico.Base.Bytes.{Bytes, Bytes-append, All-replicate}
use re_pico.Base.Slices.{take-append_self, drop-append_past}
use re_pico.Base.Run.{ok}
use re_pico.Net.Wire.{be16}
use re_pico.Crypto.Aes.{expand_key}
use re_pico.Crypto.Aes.Schedule.{expand_key-Bytes}
use re_pico.Crypto.Cmac.Spec.{cmac_of, aes_cmac_lem}
use re_pico.Connect.Eapol.Frame.{be64, Header, header_bytes, KeyPacket, key_packet_bytes}
use re_pico.Connect.Eapol.Frame.Layout.{IsHeader, IsKeyPacket, length-key_packet_bytes}
use re_pico.Connect.Eapol.Reply.{
  frame_bytes, build_reply, reply_header, reply_packet, nonce_or_zeros,
}

-- The bytes in front of the code.
unfoldable front : Header → KeyPacket → List ℕ
front h k =
    header_bytes h
    ++ ((k.type ∷ (be16 k.info ++ (be16 k.keysize ++ be64 k.replay)))
        ++ (k.nonce ++ (k.iv ++ (k.rsc ++ k.reserved))))

frame_split :
    (h : Header) (k : KeyPacket) (kd : List ℕ)
    → frame_bytes h k kd ≡ front h k ++ (k.mic ++ (be16 k.datalen ++ kd))
unfolding frame_bytes front header_bytes key_packet_bytes
frame_split h k kd = simp append_assoc refl

length-front : (h : Header) (k : KeyPacket) → IsKeyPacket k → length (front h k) ≡ 81
unfolding front header_bytes
length-front h k p = omega (
  arith,
  length-append k.nonce (k.iv ++ (k.rsc ++ k.reserved)),
  length-append k.iv (k.rsc ++ k.reserved),
  length-append k.rsc k.reserved,
  p.nonce.0,
  p.iv.0,
  p.rsc.0,
  p.reserved.0,
)

abbrev pub signed : KeyPacket → List ℕ → KeyPacket
signed k mic = record k { mic = mic }

-- The frame with other bytes in the place of the code: all of it up to the end of the key data,
-- whatever follows.
pub resigned :
    (h : Header) (k : KeyPacket) (kd rest mic : List ℕ) (n : ℕ)
    → IsKeyPacket k
    → 2 + length kd ≡ n
    → take 81 (frame_bytes h k kd ++ rest) ++ (mic ++ take n (drop 97 (frame_bytes h k kd ++ rest)))
      ≡ frame_bytes h (signed k mic) kd
unfolding front
resigned h k kd rest mic n p e =
    let tail : List ℕ = be16 k.datalen ++ kd in
    let size = length-front h k p in
    let split : (front h k ++ (k.mic ++ tail)) ++ rest ≡ front h k ++ (k.mic ++ (tail ++ rest)) =
      append_assoc (front h k) (k.mic ++ tail) rest
      ∙ ap (◌++◌ (front h k)) (append_assoc k.mic tail rest) in
    rw
      (
        frame_split h k kd,
        frame_split h (signed k mic) kd,
        split,
        take-append_self 81 (front h k) (k.mic ++ (tail ++ rest)) size,
        drop-append_past 97 16 (front h k) (k.mic ++ (tail ++ rest)) (omega (arith, size)),
        drop-append_past 16 0 k.mic (tail ++ rest) (omega (arith, p.mic.0)),
        take-append_self n tail rest (omega (arith, e)),
      )
      refl

pub length-frame_bytes :
    (h : Header) (k : KeyPacket) (kd : List ℕ)
    → IsKeyPacket k
    → length (frame_bytes h k kd) ≡ 99 + length kd
unfolding frame_bytes header_bytes
length-frame_bytes h k kd p =
    omega (arith, length-append (key_packet_bytes k) kd, length-key_packet_bytes k p)

be16-Bytes : (n : ℕ) → Bytes (be16 n)
be16-Bytes n = (omega arith, (omega arith, tt))

pub frame_bytes-Bytes :
    (h : Header) (k : KeyPacket) (kd : List ℕ)
    → IsHeader h
    → IsKeyPacket k
    → Bytes kd
    → Bytes (frame_bytes h k kd)
unfolding front header_bytes
frame_bytes-Bytes h k kd q p b =
    let fields : Bytes (k.nonce ++ (k.iv ++ (k.rsc ++ k.reserved))) =
      Bytes-append k.nonce (k.iv ++ (k.rsc ++ k.reserved)) p.nonce.1 (
        Bytes-append k.iv (k.rsc ++ k.reserved) p.iv.1
          (Bytes-append k.rsc k.reserved p.rsc.1 p.reserved.1)) in
    let numbers : Bytes
        (header_bytes h ++ (k.type ∷ (be16 k.info ++ (be16 k.keysize ++ be64 k.replay)))) =
      ground (arith, q.version, q.type, p.type) in
    let last : Bytes (k.mic ++ (be16 k.datalen ++ kd)) =
      Bytes-append k.mic (be16 k.datalen ++ kd) p.mic.1
        (Bytes-append (be16 k.datalen) kd (be16-Bytes k.datalen) b) in
    rw (frame_split h k kd) (
      Bytes-append (front h k) (k.mic ++ (be16 k.datalen ++ kd))
        (Bytes-append
          (header_bytes h ++ (k.type ∷ (be16 k.info ++ (be16 k.keysize ++ be64 k.replay))))
          (k.nonce ++ (k.iv ++ (k.rsc ++ k.reserved))) numbers fields)
        last)

pub reply_packet-IsKeyPacket :
    (info replay : ℕ) (given : Option (List ℕ)) (kd : List ℕ)
    → info < 65536
    → replay < 2 ^ 64
    → (length (nonce_or_zeros given) ≡ 32) × Bytes (nonce_or_zeros given)
    → IsKeyPacket (reply_packet info replay given kd)
reply_packet-IsKeyPacket info replay given kd hi hr hn = record {
  type = omega arith;
  info = hi;
  keysize = omega arith;
  replay = hr;
  nonce = hn;
  iv = (refl, All-replicate (λ b. b < 256) 16 0 (omega arith));
  rsc = (refl, All-replicate (λ b. b < 256) 8 0 (omega arith));
  reserved = (refl, All-replicate (λ b. b < 256) 8 0 (omega arith));
  mic = (refl, All-replicate (λ b. b < 256) 16 0 (omega arith));
  datalen = omega arith;
}

-- The reply that fits is the headers and the key data with the code of all of it in its place.
pub build_reply_lem :
    (capacity version info replay : ℕ) (given : Option (List ℕ)) (kd kck : List ℕ)
    → version < 256
    → info < 65536
    → replay < 2 ^ 64
    → (length (nonce_or_zeros given) ≡ 32) × Bytes (nonce_or_zeros given)
    → Bytes kd
    → Bytes kck
    → 99 + length kd ≤ capacity
    → length kd < 2 ^ 16
    → build_reply capacity version info replay given kd kck
      ≡ ok (
          frame_bytes
            (reply_header version kd)
            (signed (reply_packet info replay given kd) (
              cmac_of
                (expand_key kck)
                (frame_bytes (reply_header version kd) (reply_packet info replay given kd) kd)))
            kd)
unfolding build_reply
build_reply_lem capacity version info replay given kd kck hv hi hr hn hb hk room small =
    let h : Header = reply_header version kd in
    let k : KeyPacket = reply_packet info replay given kd in
    let p = reply_packet-IsKeyPacket info replay given kd hi hr hn in
    let q : IsHeader h = record { version = hv; type = omega arith; size = omega arith } in
    rw
      (
        le→leb 4 capacity (omega arith),
        le→leb 95 (capacity - 4) (omega arith),
        le→leb (length kd) (capacity - 99) (omega arith),
        aes_cmac_lem (expand_key kck) (frame_bytes h k kd) (expand_key-Bytes kck hk)
            (frame_bytes-Bytes h k kd q p hb) (omega (arith, length-frame_bytes h k kd p)),
      )
      refl
