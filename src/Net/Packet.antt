-- ===== src/Net/Packet.antt =====
-- submodules/re-net/src/net/packet.hpp and packet.cpp, `Packet`: a window of valid bytes in a buffer.
pub mod Window
pub mod Pool
pub mod Tests
use re_pico.Base.{ℕ, ◌+◌, ◌-◌, List, Option, none, some, leb, if◌then◌else◌, take, drop, u16}

abbrev pub packet_capacity : ℕ
packet_capacity = 1664

-- The link `next` is the business of the pool and the queues.
pub record Packet : Type 0 where
  pub head : ℕ
  pub len : ℕ
  pub buf : List ℕ

-- `data()` and `len`: the valid bytes.
abbrev pub data_of : Packet → List ℕ
data_of p = take p.len (drop p.head p.buf)

abbrev pub headroom : Packet → ℕ
headroom p = p.head

-- The unsigned difference does not wrap where the window is inside the buffer.
abbrev pub tailroom : Packet → ℕ
tailroom p = packet_capacity - p.head - p.len

-- `none` where the packet is left as it was.
unfoldable pub prepend : Packet → ℕ → Option Packet
prepend p count =
    if leb count (headroom p)
    then some (record p { head = u16 (p.head - count); len = u16 (p.len + count) })
    else none

-- Beside the packet, the place in the buffer of the bytes that have been added.
unfoldable pub append : Packet → ℕ → Option (Packet × ℕ)
append p count =
    if leb count (tailroom p)
    then some (record p { len = u16 (p.len + count) }, p.head + p.len)
    else none

unfoldable pub consume : Packet → ℕ → Option Packet
consume p count =
    if leb count p.len
    then some (record p { head = u16 (p.head + count); len = u16 (p.len - count) })
    else none
