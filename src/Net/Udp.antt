-- ===== src/Net/Udp.antt =====
-- submodules/re-net/src/net/udp.hpp and udp.cpp. The sockets are objects of the application that the
-- table points to: a slot holds the place of one in the list of them. What `input` hands to the
-- function `on_rx` of a socket is its result.
pub mod Ports
pub mod Segment
pub mod Tests
use re_pico.Base.{
  ℕ, zero, suc, ◌+◌, ◌-◌, List, [], ◌∷◌, ◌++◌, Bool, true, false, not, ◌&&◌, ◌||◌, Option, none,
  some, ltb, leb, ◌==◌, if◌then◌else◌, u16, map, get_or, set, take, drop, length,
}
use re_pico.Base.Run.{Run, ok, fails, ◌>>=◌, ensure}
use re_pico.Net.Wire.{be16, get16}
use re_pico.Net.Checksum.{l4_checksum}
use re_pico.Net.Packet.{Packet, prepend, data_of}
use re_pico.Net.Ethernet.{Sent}
use re_pico.Net.Arp.{Entry}
use re_pico.Net.Ipv4.{Config}
use re_pico.Net.Ipv4

abbrev pub proto_udp : ℕ
proto_udp = 17

abbrev pub header_size : ℕ
header_size = 8

pub record Socket : Type 0 where
  pub port : ℕ
  pub has_on_rx : Bool

abbrev pub new_socket : Socket
new_socket = record { port = 0; has_on_rx = false }

pub record Table : Type 0 where
  pub socks : List Socket
  pub slots : List (Option ℕ)

abbrev pub socket_at : List Socket → ℕ → Socket
socket_at socks s = get_or socks s new_socket

-- The loop of `bind` up to its end: `none` where the port is in use, else the first free slot.
unfoldable pub bind_scan : List Socket → ℕ → ℕ → List (Option ℕ) → Option ℕ → Option (Option ℕ)
bind_scan socks port i [] found = some found
bind_scan socks port i (none ∷ slots) none = bind_scan socks port (i + 1) slots (some i)
bind_scan socks port i (none ∷ slots) (some f) = bind_scan socks port (i + 1) slots (some f)
bind_scan socks port i (some s ∷ slots) found =
    let rest = bind_scan socks port (i + 1) slots found in
    if (socket_at socks s).port == port then none else rest

-- `none` where it returns false.
unfoldable pub bind : Table → ℕ → Option Table
bind t s = elim (bind_scan t.socks (socket_at t.socks s).port 0 t.slots none) [
  | none ↦ none
  | some none ↦ none
  | some (some i) ↦ some (record t { slots = set t.slots i (some s) })
]

abbrev pub drop_socket : ℕ → Option ℕ → Option ℕ
drop_socket s none = none
drop_socket s (some c) = if c == s then none else some c

unfoldable pub unbind : Table → ℕ → Table
unbind t s = record t { slots = map (drop_socket s) t.slots }

-- The header, its checksum given.
unfoldable pub header_bytes : ℕ → ℕ → ℕ → ℕ → List ℕ
header_bytes src_port dst_port len sum = be16 src_port ++ (be16 dst_port ++ (be16 len ++ be16 sum))

-- The packet that `send` hands to `ipv4::output`.
unfoldable pub add_header : ℕ → ℕ → ℕ → ℕ → Packet → Run Packet
add_header addr dst src_port dst_port packet =
    let len = header_size + packet.len in
    if leb len 0xffff
    then elim (prepend packet header_size) [
      | none ↦ fails
      | some raw ↦ do
        sum ←
            l4_checksum addr dst proto_udp
              (header_bytes src_port dst_port (u16 len) 0 ++ data_of packet)
        ok (record raw {
          buf =
              take raw.head raw.buf
              ++ (header_bytes src_port dst_port (u16 len) (if sum == 0 then 0xffff else sum)
                  ++ drop (raw.head + header_size) raw.buf);
        })
    ]
    else fails

unfoldable pub send :
    Config → Option (List ℕ) → ℕ → ℕ → ℕ → ℕ → Packet → List Entry → Run (List Entry × Sent × ℕ)
send c spare ident dst src_port dst_port packet table = do
  whole ← add_header c.host.addr dst src_port dst_port packet
  Ipv4.output c spare ident dst proto_udp whole table

-- What a socket is given.
pub record Datagram : Type 0 where
  pub socket : ℕ
  pub src : ℕ
  pub src_port : ℕ
  pub body : List ℕ

-- The checks of `input`: the ports and the data.
unfoldable pub parse : ℕ → ℕ → List ℕ → Run (ℕ × ℕ × List ℕ)
parse src dst bytes = do
  _ ← ensure (leb header_size (length bytes))
  let len = get16 bytes 4
  _ ← ensure (leb header_size len && leb len (length bytes))
  let whole = take len bytes
  sum ← (if get16 bytes 6 == 0 then ok 0 else l4_checksum src dst proto_udp whole)
  _ ← ensure (sum == 0)
  ok (get16 bytes 0, get16 bytes 2, drop header_size whole)

-- The first socket of the table that listens on the port.
unfoldable pub listener : List Socket → ℕ → List (Option ℕ) → Option ℕ
listener socks port [] = none
listener socks port (none ∷ slots) = listener socks port slots
listener socks port (some s ∷ slots) =
    let rest = listener socks port slots in
    let sock = socket_at socks s in if sock.port == port && sock.has_on_rx then some s else rest

-- `fails` where the packet is dropped.
unfoldable pub input : Table → ℕ → ℕ → List ℕ → Run Datagram
input t src dst bytes = do
  (src_port, dst_port, body) ← parse src dst bytes
  elim (listener t.socks dst_port t.slots) [
    | none ↦ fails
    | some s ↦ ok (record { socket = s; src = src; src_port = src_port; body = body })
  ]
