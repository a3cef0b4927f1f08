-- ===== src/Net/Stack.antt =====
-- submodules/re-net/src/net/stack.cpp, `NetIf::rx`: which protocol a received frame is for.
pub mod Resolution
pub mod Tests
use re_pico.Base.{ℕ, List, [], Option, none, ltb, ◌==◌, if◌then◌else◌, take, drop, length}
use re_pico.Base.Run.{Run, ok, ◌>>=◌, of_option}
use re_pico.Net.Wire.{get16}
use re_pico.Net.Ethernet.{ethernet_header_size, ether_type_ipv4, ether_type_arp}
use re_pico.Net.Arp.{Entry}
use re_pico.Net.Arp
use re_pico.Net.Ipv4.{Config, Delivered}
use re_pico.Net.Ipv4

-- The table of ARP behind the call, the frames that go out, and what a protocol above is given.
unfoldable pub rx :
    Config
    → Option (List ℕ)
    → List ℕ
    → List Entry
    → Run (List Entry × List (List ℕ) × Option Delivered)
rx c spare frame table =
    if ltb (length frame) ethernet_header_size
    then ok (table, [], none)
    else (let src = take 6 (drop 6 frame) in
        let ethertype = get16 frame 12 in
        let body = drop ethernet_header_size frame in
        if ethertype == ether_type_arp
        then (do
          (table', frames) ← of_option (Arp.input c.host spare body table)
          ok (table', frames, none))
        else if ethertype == ether_type_ipv4
        then Ipv4.input c src body table
        else ok (table, [], none))
