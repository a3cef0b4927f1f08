-- ===== src/Net/Ipv4.antt =====
-- submodules/re-net/src/net/ip.hpp and ip.cpp, `input` and `output`, and `Stack::on_link` of stack.cpp. An
-- address is a number of 32 bits, its first byte highest. What `input` hands to the protocol above is
-- part of its result.
pub mod Header
pub mod Arrival
pub mod Tests
use re_pico.Base.{
  ℕ, zero, suc, ◌+◌, ◌-◌, ◌*◌, List, [], ◌∷◌, ◌++◌, Bool, true, false, ◌&&◌, ◌||◌, not, Option,
  none, some, ltb, leb, ◌==◌, if◌then◌else◌, bit_and, ◌>>◌, u16, get_or, take, drop, length,
}
use re_pico.Base.Run.{Run, ok, fails, fault, ◌>>=◌, ensure, of_option, between}
use re_pico.Net.Wire.{be16, be32, get16, get32}
use re_pico.Net.Checksum.{checksum}
use re_pico.Net.Packet.{Packet, prepend, data_of}
use re_pico.Net.Ethernet.{Sent}
use re_pico.Net.Arp.{Host, Entry, cache, resolve_and_send}

pub record Config : Type 0 where
  pub host : Host
  pub netmask : ℕ
  pub gateway : ℕ

abbrev pub header_size : ℕ
header_size = 20

abbrev pub default_ttl : ℕ
default_ttl = 64

abbrev pub flag_df : ℕ
flag_df = 0x4000

abbrev pub ipv4_any : ℕ
ipv4_any = 0

abbrev pub ipv4_broadcast : ℕ
ipv4_broadcast = 0xffffffff

-- The loop of `on_link` over the bytes of the three addresses.
unfoldable pub same_net : List ℕ → List ℕ → List ℕ → Bool
same_net (i ∷ ip) (m ∷ mask) (a ∷ addr) =
    let rest = same_net ip mask addr in if bit_and i m == bit_and a m then rest else false
same_net ip mask addr = true

unfoldable pub on_link : Config → ℕ → Bool
on_link c ip = same_net (be32 ip) (be32 c.netmask) (be32 c.host.addr)

-- The header that `output` writes.
unfoldable pub header_bytes : ℕ → ℕ → ℕ → ℕ → ℕ → ℕ → List ℕ
header_bytes total id proto sum src dst =
    0x45 ∷ 0 ∷ be16 total
    ++ (be16 id ++ (be16 flag_df ++ (default_ttl ∷ proto ∷ be16 sum ++ (be32 src ++ be32 dst))))

-- The packet with its header, and the counter `ident` behind it.
unfoldable pub add_header : Config → ℕ → ℕ → ℕ → Packet → Run Packet
add_header c ident dst proto packet = elim (prepend packet header_size) [
  | none ↦ fails
  | some raw ↦ do
    let total = u16 (header_size + packet.len)
    sum ← checksum (header_bytes total ident proto 0 c.host.addr dst)
    ok (record raw {
      buf =
          take raw.head raw.buf
          ++ (header_bytes total ident proto sum c.host.addr dst
              ++ drop (raw.head + header_size) raw.buf);
    })
]

unfoldable pub output :
    Config → Option (List ℕ) → ℕ → ℕ → ℕ → Packet → List Entry → Run (List Entry × Sent × ℕ)
output c spare ident dst proto packet table = do
  whole ← add_header c ident dst proto packet
  let next_hop = if on_link c dst then dst else c.gateway
  (table', sent) ← of_option (resolve_and_send c.host spare next_hop whole table)
  ok (table', sent, u16 (ident + 1))

-- What the protocol above is given.
pub record Delivered : Type 0 where
  pub proto : ℕ
  pub src : ℕ
  pub dst : ℕ
  pub body : List ℕ

abbrev pub header_length : List ℕ → ℕ
header_length bytes = bit_and (get_or bytes 0 0) 0x0f * 4

-- The checks of the header behind that of the packet's size, up to its checksum; `head` is its fixed
-- part.
unfoldable pub sum_of_header : List ℕ → List ℕ → Run Bool
sum_of_header bytes head =
    if not ((get_or head 0 0 >> 4) == 4)
      || ltb (header_length head) header_size
      || ltb (length bytes) (header_length head)
    then ok false
    else (do whole ← between bytes 0 (header_length head); sum ← checksum whole; ok (sum == 0))

-- All the checks of the header.
unfoldable pub is_sound : List ℕ → Run Bool
is_sound bytes =
    if ltb (length bytes) header_size
    then ok false
    else (do head ← between bytes 0 header_size; sum_of_header bytes head)

-- The checks behind it, and the packet without its header.
unfoldable pub accept : Config → List ℕ → List ℕ → Run (Option Delivered)
accept c bytes head =
    let dst = get32 head 16 in
    let total = get16 head 2 in
    let ihl = header_length head in
    if not (dst == c.host.addr || dst == ipv4_broadcast || c.host.addr == ipv4_any)
      || ltb total ihl
      || ltb (length bytes) total
    then ok none
    else (do
      body ← between bytes ihl total
      ok (some (record { proto = get_or head 9 0; src = get32 head 12; dst = dst; body = body })))

unfoldable pub input :
    Config → List ℕ → List ℕ → List Entry → Run (List Entry × List (List ℕ) × Option Delivered)
input c src_mac bytes table = do
  sound ← is_sound bytes
  elim sound [
    | false ↦ ok (table, [], none)
    | true ↦ do
      head ← between bytes 0 header_size
      let src = get32 head 12
      (table', frames) ←
          (if src == ipv4_any then ok (table, []) else of_option (cache c.host src src_mac table))
      up ← accept c bytes head
      ok (table', frames, up)
  ]
