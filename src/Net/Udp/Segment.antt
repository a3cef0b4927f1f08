-- ===== src/Net/Udp/Segment.antt =====
-- A datagram that `send` builds passes the checks of `input` and is read as it was written.
use re_pico.Base.{
  ℕ, ◌+◌, ◌-◌, ◌<◌, ◌≤◌, ◌≡◌, refl, ap, ◌∙◌, List, ◌++◌, true, false, ◌==◌, if◌then◌else◌, u16,
  take, drop, length, arith, leb, le→leb, length-take, length-drop, ◌&&◌,
}
use re_pico.Base.Bytes.{Bytes, Bytes-append, All-take, All-drop}
use re_pico.Base.Run.{ok}
use re_pico.Base.Slices.{take_all}
use re_pico.Net.Wire.{be16_number}
use re_pico.Net.Packet.{Packet, data_of, prepend}
use re_pico.Net.Packet.Window.{IsPacket, written}
use re_pico.Net.Checksum.{l4_checksum}
use re_pico.Net.Checksum.Total.{words_total, IsFolded, l4_total, l4_checksum_lem}
use re_pico.Net.Udp.{header_bytes, add_header, parse}

module _ (addr dst sp dp n : ℕ) (body : List ℕ) (hb : Bytes body) (fits : length body < 65000) where
  whole : ℕ → List ℕ
  whole sum = header_bytes sp dp n sum ++ body

  whole-Bytes : (sum : ℕ) → Bytes (whole sum)
  unfolding header_bytes whole
  whole-Bytes sum = Bytes-append (header_bytes sp dp n sum) body (omega arith) hb

  whole-length : (sum : ℕ) → length (whole sum) ≡ 8 + length body
  unfolding header_bytes whole
  whole-length sum = omega arith

  total_of :
      (sum : ℕ)
      → sum < 65536
      → l4_total addr dst 17 (whole sum) ≡ l4_total addr dst 17 (whole 0) + sum
  unfolding header_bytes whole l4_total words_total
  total_of sum h = omega arith

-- The sum 0 is sent as 65535, which counts the same.
stored : ℕ → ℕ
stored sum = if sum == 0 then 0xffff else sum

stored_to_zero :
    (t t' r r' : ℕ) → IsFolded t r → IsFolded t' r' → t' ≡ t + stored (65535 - r) → 65535 - r' ≡ 0
unfolding stored
stored_to_zero t t' r r' f f' e =
    ground (arith, f.small, f.same, f.zero_only, f.of_zero, f'.small, f'.same, f'.zero_only)

stored-lt : (sum : ℕ) → sum < 65536 → stored sum < 65536
unfolding stored
stored-lt sum h = ground arith

stored_nonzero : (sum : ℕ) → (stored sum == 0) ≡ false
unfolding stored
stored_nonzero sum = ground arith

module _ (addr dst sp dp : ℕ) (body : List ℕ) (hb : Bytes body) (fits : length body < 65000) where
  abbrev len : ℕ
  len = 8 + length body

  bytes_of : ℕ → List ℕ
  bytes_of sum = whole addr dst sp dp len body hb fits sum

  sum_lem :
      (sum : ℕ) × (l4_checksum addr dst 17 (bytes_of 0) ≡ ok sum)
      × (sum < 65536)
      × (l4_checksum addr dst 17 (bytes_of (stored sum)) ≡ ok 0)
  unfolding bytes_of
  sum_lem =
      let (r, e, f) =
        l4_checksum_lem addr dst 17 (bytes_of 0) (omega arith)
          (whole-Bytes addr dst sp dp len body hb fits 0)
          (omega (arith, whole-length addr dst sp dp len body hb fits 0)) in
      let sum : ℕ = 65535 - r in
      let (r', e', f') =
        l4_checksum_lem addr dst 17 (bytes_of (stored sum)) (omega arith)
          (whole-Bytes addr dst sp dp len body hb fits (stored sum))
          (omega (arith, whole-length addr dst sp dp len body hb fits (stored sum))) in
      (
        sum,
        e,
        omega arith,
        e'
            ∙ ap ok (
                stored_to_zero (l4_total addr dst 17 (bytes_of 0))
                  (l4_total addr dst 17 (bytes_of (stored sum))) r r' f f'
                  (total_of addr dst sp dp len body hb fits (stored sum)
                    (stored-lt sum (omega arith)))),
      )

  parse_whole :
      (sum : ℕ)
      → sum < 65536
      → sp < 65536
      → dp < 65536
      → (sum == 0) ≡ false
      → l4_checksum addr dst 17 (bytes_of sum) ≡ ok 0
      → parse addr dst (header_bytes sp dp len sum ++ body) ≡ ok (sp, dp, body)
  unfolding parse header_bytes bytes_of whole
  parse_whole sum small hs hd nonzero zero_sum =
      let bytes = header_bytes sp dp len sum ++ body in
      let long : leb 8 (length bytes) ≡ true = ground arith in
      let in_range : (leb 8 len && leb len (length bytes)) ≡ true = ground arith in
      let all : take len bytes ≡ bytes = take_all len bytes (omega arith) in
      rw
        (
          long,
          be16_number len (omega arith),
          be16_number sum small,
          be16_number sp hs,
          be16_number dp hd,
          in_range,
          nonzero,
          all,
          zero_sum,
        )
        refl

length-header : (sp dp n sum : ℕ) → length (header_bytes sp dp n sum) ≡ 8
unfolding header_bytes
length-header sp dp n sum = refl

-- A packet with headroom, its window inside its buffer, becomes a datagram that the receiver's checks
-- accept, checksum included, and that gives back the ports and the packet's bytes.
pub add_header-parse :
    (addr dst sp dp : ℕ) (packet : Packet)
    → IsPacket packet
    → Bytes packet.buf
    → 8 ≤ packet.head
    → sp < 65536
    → dp < 65536
    → (datagram : Packet) × (add_header addr dst sp dp packet ≡ ok datagram)
      × (parse addr dst (data_of datagram) ≡ ok (sp, dp, data_of packet))
unfolding add_header prepend bytes_of whole stored
add_header-parse addr dst sp dp packet v b room hs hd =
    let body = data_of packet in
    let size : length body ≡ packet.len = omega (
      arith,
      v.inside,
      v.size,
      length-take packet.len (drop packet.head packet.buf),
      length-drop packet.head packet.buf,
    ) in
    let hb : Bytes body =
      All-take (λ b. b < 256) packet.len (drop packet.head packet.buf)
        (All-drop (λ b. b < 256) packet.head packet.buf b) in
    let fits : length body < 65000 = omega (arith, v.inside, size) in
    let (sum, e, small, zero_sum) = sum_lem addr dst sp dp body hb fits in
    let new = header_bytes sp dp (8 + length body) (stored sum) in
    let head = packet.head - 8 in
    let front : u16 (packet.head - 8) ≡ head = omega (arith, v.inside) in
    let long : u16 (packet.len + 8) ≡ packet.len + 8 = omega (arith, v.inside) in
    let count : u16 (8 + packet.len) ≡ 8 + length body = omega (arith, v.inside, size) in
    (
      record {
        head = head;
        len = packet.len + 8;
        buf = take head packet.buf ++ (new ++ drop (head + 8) packet.buf);
      },
      rw
          (
            le→leb (8 + packet.len) 0xffff (omega (arith, v.inside)),
            le→leb 8 packet.head room,
            count,
            e,
            front,
            long,
            add_header,
          )
          refl,
      ap (parse addr dst) (
            written 8 packet.head packet.len packet.buf new
              (length-header sp dp (8 + length body) (stored sum)) room
              (omega (arith, v.inside, v.size)))
          ∙ parse_whole addr dst sp dp body hb fits (stored sum) (stored-lt sum small) hs hd
              (stored_nonzero sum) zero_sum,
    )
