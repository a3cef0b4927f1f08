-- ===== src/Net/Ipv4/Tests.antt =====
-- Two stations on a link: the tests and the examples of the theorems.
use re_pico.Base.{ℕ, ◌<◌, ◌≡◌, refl, List, true, false, some, replicate, length, arith}
use re_pico.Base.Bytes.{All-replicate}
use re_pico.Base.Run.{ok, Yields}
use re_pico.Net.Packet.{Packet, data_of}
use re_pico.Net.Packet.Tests.{demo-IsPacket}
use re_pico.Net.Packet.Tests
use re_pico.Net.Arp.{Entry, lookup}
use re_pico.Net.Arp.Table.{Unique}
use re_pico.Net.Arp.Tests.{mac_a, mac_b, home, demo, demo-Unique}
use re_pico.Net.Ipv4.{Config, same_net, on_link, add_header, input}
use re_pico.Net.Ipv4.Arrival.{add_header-input, input_lem}

abbrev station : Config
station = record { host = home; netmask = 0xffffff00; gateway = 0xc0a800fe }

abbrev peer : Config
peer = record station { host = record home { addr = 0xc0a80002 } }

near : on_link station 0xc0a80002 ≡ true
unfolding on_link same_net
near = refl

far : on_link station 0x08080808 ≡ false
unfolding on_link same_net
far = refl

add_header-input_example :
    (whole : Packet) × (table' : List Entry) × (frames : List (List ℕ)) × (add_header station 7
        0xc0a80002 17 Tests.demo
      ≡ ok whole)
    × (input peer mac_a (data_of whole) demo
        ≡ ok (
          table',
          frames,
          some (record {
            proto = 17;
            src = 0xc0a80001;
            dst = 0xc0a80002;
            body = data_of Tests.demo;
          }),
        ))
    × (lookup table' 0xc0a80001 ≡ some mac_a)
add_header-input_example =
    add_header-input station peer 7 17 Tests.demo mac_a demo demo-IsPacket (omega arith)
      (omega arith) (omega arith) (omega arith) (omega arith) demo-Unique (omega arith)

input_lem_example :
    Yields
      (λ out. Unique out.0 × (length out.0 ≡ length demo))
      (input station mac_b (replicate 40 0x45) demo)
input_lem_example =
    input_lem station mac_b (replicate 40 0x45) demo
      (All-replicate (λ b. b < 256) 40 0x45 (omega arith)) demo-Unique (omega arith)
