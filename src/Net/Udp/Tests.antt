-- ===== src/Net/Udp/Tests.antt =====
-- Two sockets and a datagram: the tests and the examples of the theorems.
use re_pico.Base.{◌<◌, ◌≡◌, refl, List, [], ◌∷◌, true, none, some, replicate, arith}
use re_pico.Base.Bytes.{All-replicate}
use re_pico.Base.Run.{ok}
use re_pico.Net.Packet.{Packet, data_of}
use re_pico.Net.Packet.Tests.{demo, demo-IsPacket}
use re_pico.Net.Udp.{Socket, Table, bind_scan, bind, add_header, parse}
use re_pico.Net.Udp.Ports.{Unused}
use re_pico.Net.Udp.Segment.{add_header-parse}

abbrev sockets : List Socket
sockets = record { port = 68; has_on_rx = true } ∷ record { port = 5353; has_on_rx = true } ∷ []

abbrev before : Table
before = record { socks = sockets; slots = some 0 ∷ replicate 3 none }

abbrev after : Table
after = record { socks = sockets; slots = some 0 ∷ some 1 ∷ replicate 2 none }

bound : bind before 1 ≡ some after
unfolding bind bind_scan
bound = refl

in_use : bind after 1 ≡ none
unfolding bind bind_scan
in_use = refl

new_port : Unused sockets 5353 before.slots
unfolding Unused
new_port = ((omega arith), tt)

add_header-parse_example :
    (datagram : Packet) × (add_header 0xc0a80001 0xc0a80002 68 5353 demo ≡ ok datagram)
    × (parse 0xc0a80001 0xc0a80002 (data_of datagram) ≡ ok (68, 5353, data_of demo))
add_header-parse_example =
    add_header-parse 0xc0a80001 0xc0a80002 68 5353 demo demo-IsPacket
      (All-replicate (λ b. b < 256) 1664 0 (omega arith)) (omega arith) (omega arith) (omega arith)
