-- ===== src/Net/Ipv4/Arrival.antt =====
-- A packet that one station sends arrives at another, and no received bytes make `input` fail.
use re_pico.Base.{
  ℕ, ◌+◌, ◌-◌, ◌^◌, ◌<◌, ◌≤◌, ◌≡◌, ◌≢◌, refl, ap, ◌∙◌, List, [], ◌++◌, Bool, true, false, Option,
  some, length, take, drop, arith, ltb, ◌==◌, u16, inl, inr, Bool-cases, le→leb, length-take,
  length-drop, ◌||◌, not, ◌>>◌, get_or, ltb→le, if◌then◌else◌, [],
}
use re_pico.Base.Bits.{bit_and_mask}
use re_pico.Base.Bytes.{Bytes, All-take}
use re_pico.Base.Run.{ok, of_option, between-ok, Yields, yields, Yields-bind}
use re_pico.Net.Packet.{Packet, data_of, prepend}
use re_pico.Net.Packet.Window.{IsPacket, written}
use re_pico.Net.Checksum.{checksum}
use re_pico.Net.Checksum.Total.{checksum_lem}
use re_pico.Net.Arp.{Entry, cache, lookup}
use re_pico.Net.Arp.Table.{Unique}
use re_pico.Net.Arp.Flow.{cache_lem}
use re_pico.Net.Wire.{get16, get32, be32_number}
use re_pico.Net.Ipv4.{
  Config, Delivered, ipv4_any, ipv4_broadcast, header_bytes, header_length, add_header,
  sum_of_header, is_sound, accept, input,
}
use re_pico.Net.Ipv4.Header.{header_lem, is_sound-header, accept-header}

length-header :
    (total id proto sum src dst : ℕ) → length (header_bytes total id proto sum src dst) ≡ 20
unfolding header_bytes
length-header total id proto sum src dst = refl

module _ (c : Config) (ident dst proto : ℕ) (packet : Packet) (v : IsPacket packet)
    (room : 20 ≤ packet.head) (hp : proto < 256) where
  add_header_lem :
      let total = u16 (20 + packet.len) in
      (whole : Packet) × (sum : ℕ) × (add_header c ident dst proto packet ≡ ok whole)
      × (checksum (header_bytes total ident proto sum c.host.addr dst) ≡ ok 0)
      × (data_of whole ≡ header_bytes total ident proto sum c.host.addr dst ++ data_of packet)
  unfolding add_header prepend
  add_header_lem =
      let total = u16 (20 + packet.len) in
      let (sum, e, zero_sum) = header_lem total ident proto c.host.addr dst hp in
      let new = header_bytes total ident proto sum c.host.addr dst in
      let head = packet.head - 20 in
      let small : u16 (packet.head - 20) ≡ head = omega (arith, v.inside) in
      let long : u16 (packet.len + 20) ≡ packet.len + 20 = omega (arith, v.inside) in
      (
        record {
          head = head;
          len = packet.len + 20;
          buf = take head packet.buf ++ (new ++ drop (head + 20) packet.buf);
        },
        sum,
        rw (le→leb 20 packet.head room, e, small, long, add_header) refl,
        zero_sum,
        written 20 packet.head packet.len packet.buf new
            (length-header total ident proto sum c.host.addr dst) room
            (omega (arith, v.inside, v.size)),
      )

source_of :
    (total id proto sum src dst : ℕ) (body : List ℕ)
    → src < 2 ^ 32
    → get32 (take 20 (header_bytes total id proto sum src dst ++ body)) 12 ≡ src
unfolding header_bytes
source_of total id proto sum src dst body h = be32_number src h

long_enough :
    (total id proto sum src dst : ℕ) (body : List ℕ)
    → 20 ≤ length (header_bytes total id proto sum src dst ++ body)
unfolding header_bytes
long_enough total id proto sum src dst body = omega arith

not_any : (src : ℕ) → src ≢ 0 → (src == 0) ≡ false
not_any src h = ground arith

received :
    (c : Config) (mac bytes : List ℕ) (src : ℕ) (table table' : List Entry) (frames : List (List ℕ))
    (up : Option Delivered)
    → 20 ≤ length bytes
    → is_sound bytes ≡ ok true
    → get32 (take 20 bytes) 12 ≡ src
    → src ≢ 0
    → cache c.host src mac table ≡ some (table', frames)
    → accept c bytes (take 20 bytes) ≡ ok up
    → input c mac bytes table ≡ ok (table', frames, up)
unfolding input
received c mac bytes src table table' frames up k s e n l a =
    rw (s, between-ok bytes 0 20 (omega arith) k, e, not_any src n, l, a) refl

-- The packet that `add_header` makes of one arrives: a station that has the destination's address
-- hands the bytes that were in it to the protocol above, with the sender's address, and has learned
-- the sender's hardware address. The packet has a window inside its buffer with headroom for the
-- header, and the sender an address.
pub add_header-input :
    (c c' : Config) (ident proto : ℕ) (packet : Packet) (mac : List ℕ) (table : List Entry)
    → IsPacket packet
    → 20 ≤ packet.head
    → proto < 256
    → c.host.addr ≢ 0
    → c.host.addr < 2 ^ 32
    → c'.host.addr < 2 ^ 32
    → Unique table
    → 0 < length table
    → (whole : Packet) × (table' : List Entry) × (frames : List (List ℕ)) × (add_header c ident
          c'.host.addr proto packet
        ≡ ok whole)
      × (input c' mac (data_of whole) table
          ≡ ok (
            table',
            frames,
            some (record {
              proto = proto;
              src = c.host.addr;
              dst = c'.host.addr;
              body = data_of packet;
            }),
          ))
      × (lookup table' c.host.addr ≡ some mac)
add_header-input c c' ident proto packet mac table v room hp known small small' u some_slot =
    let dst = c'.host.addr in
    let src = c.host.addr in
    let (whole, sum, e, zero_sum, bytes) = add_header_lem c ident dst proto packet v room hp in
    let (table', frames, learnt, u', size, found, rest, one) =
      cache_lem c'.host src mac table u some_slot in
    let n = u16 (20 + packet.len) in
    let whole_length : n ≡ 20 + length (data_of packet) = omega (
      arith,
      v.inside,
      v.size,
      length-take packet.len (drop packet.head packet.buf),
      length-drop packet.head packet.buf,
    ) in
    let from : get32 (take 20 (header_bytes n ident proto sum src dst ++ data_of packet)) 12 ≡ src =
      source_of n ident proto sum src dst (data_of packet) small in
    (
      whole,
      table',
      frames,
      e,
      ap (λ (b : List ℕ). input c' mac b table) bytes
          ∙ received c' mac (header_bytes n ident proto sum src dst ++ data_of packet) src table
              table' frames _ (long_enough n ident proto sum src dst (data_of packet))
              (is_sound-header n ident proto src dst hp sum (data_of packet) zero_sum) from known
              learnt
              (accept-header n ident proto src dst hp c' sum (data_of packet) whole_length
                (omega arith) small small' refl),
      found,
    )

last_check : (a b : Bool) (ihl n : ℕ) → (a || b || ltb n ihl) ≡ false → ihl ≤ n
last_check false false ihl n e = ground (arith, e)
last_check false true ihl n e = cc
last_check true b ihl n e = cc

spanned :
    (a : Bool) (total ihl n : ℕ)
    → (not a || ltb total ihl || ltb n total) ≡ false
    → (ihl ≤ total) × (total ≤ n)
spanned true total ihl n e = ground (arith, e)
spanned false total ihl n e = cc

-- What has passed the checks has a whole header.
IsWhole : List ℕ → Bool → Type 0
IsWhole bytes sound =
    sound ≡ true → (20 ≤ length bytes) × (header_length (take 20 bytes) ≤ length bytes)

unsound : (bytes : List ℕ) → IsWhole bytes false
unfolding IsWhole
unsound bytes e = cc

sum_of_header_lem :
    (bytes : List ℕ)
    → Bytes bytes
    → 20 ≤ length bytes
    → Yields (IsWhole bytes) (sum_of_header bytes (take 20 bytes))
unfolding sum_of_header IsWhole
sum_of_header_lem bytes h whole =
    let head = take 20 bytes in
    let ihl = header_length head in
    elim (Bool-cases (not ((get_or head 0 0 >> 4) == 4) || ltb ihl 20 || ltb (length bytes) ihl)) [
      | inl bad ↦ rw bad (yields (unsound bytes))
      | inr fits ↦
          let inside : ihl ≤ length bytes =
            last_check (not ((get_or head 0 0 >> 4) == 4)) (ltb ihl 20) ihl (length bytes) fits in
          let few : length (take ihl bytes) ≤ 60 =
            omega (arith, length-take ihl bytes, bit_and_mask 4 (get_or head 0 0)) in
          let (r, e, f) =
            checksum_lem (take ihl bytes) (All-take (λ b. b < 256) ihl bytes h) (omega arith) in
          let from_start : ihl - 0 ≡ ihl = omega arith in
          rw (fits, between-ok bytes 0 ihl (omega arith) inside, from_start, e)
            (yields λ _. (whole, inside))
    ]

is_sound_lem : (bytes : List ℕ) → Bytes bytes → Yields (IsWhole bytes) (is_sound bytes)
unfolding is_sound
is_sound_lem bytes h = elim (Bool-cases (ltb (length bytes) 20)) [
  | inl short ↦ rw short (yields (unsound bytes))
  | inr long ↦
      let whole : 20 ≤ length bytes = ltb→le (length bytes) 20 long in
      rw (long, between-ok bytes 0 20 (omega arith) whole) (sum_of_header_lem bytes h whole)
]

accept_lem : (c : Config) (bytes head : List ℕ) → Yields (λ _. Unit {0}) (accept c bytes head)
unfolding accept
accept_lem c bytes head =
    let total = get16 head 2 in
    let ihl = header_length head in
    let ours =
      get32 head 16 == c.host.addr || get32 head 16 == ipv4_broadcast || c.host.addr == ipv4_any in
    elim (Bool-cases (not ours || ltb total ihl || ltb (length bytes) total)) [
      | inl bad ↦ rw bad (yields tt)
      | inr fits ↦
          let (low, high) = spanned ours total ihl (length bytes) fits in
          rw (fits, between-ok bytes ihl total low high) (yields tt)
    ]

learnt_lem :
    (c : Config) (mac : List ℕ) (src : ℕ) (table : List Entry)
    → Unique table
    → 0 < length table
    → Yields
        (λ (out : List Entry × List (List ℕ)). Unique out.0 × (length out.0 ≡ length table))
        (if src == 0 then ok (table, []) else of_option (cache c.host src mac table))
learnt_lem c mac src table u some_slot = elim (Bool-cases (src == 0)) [
  | inl any ↦ rw any (yields (u, refl))
  | inr known ↦
      let (table', frames, learnt, u', size, found, rest, one) =
        cache_lem c.host src mac table u some_slot in
      rw (known, learnt) (yields (u', size))
]

-- Whatever bytes arrive, `input` returns, without an access out of bounds: each read of the header and
-- of the body stands behind the checks of the sizes, the folding of the checksum ends within its
-- rounds, and the table has a slot for the sender. The table of ARP keeps its size and one slot for
-- an address.
pub input_lem :
    (c : Config) (mac bytes : List ℕ) (table : List Entry)
    → Bytes bytes
    → Unique table
    → 0 < length table
    → Yields (λ out. Unique out.0 × (length out.0 ≡ length table)) (input c mac bytes table)
unfolding input IsWhole
input_lem c mac bytes table h u some_slot = Yields-bind (is_sound_lem bytes h) (λ sound w.
    elim (Bool-cases sound) [
      | inr f ↦ rw f (yields (u, refl))
      | inl t ↦
          rw (t, between-ok bytes 0 20 (omega arith) (w t).0)
            (Yields-bind (learnt_lem c mac (get32 (take 20 bytes) 12) table u some_slot)
              λ out k. Yields-bind (accept_lem c bytes (take 20 bytes)) λ _ _. yields k)
    ])
