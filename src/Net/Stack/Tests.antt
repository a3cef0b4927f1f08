-- ===== src/Net/Stack/Tests.antt =====
-- Two stations that do not know each other: the example of the theorem.
use re_pico.Base.{
  ℕ, ◌≡◌, refl, List, [], ◌∷◌, ◌++◌, true, none, some, replicate, length-replicate, arith,
}
use re_pico.Base.Run.{ok}
use re_pico.Net.Arp.{Entry, request, lookup}
use re_pico.Net.Arp.Tests.{mac_b, home, demo, demo-Unique}
use re_pico.Net.Ipv4.{Config}
use re_pico.Net.Stack.{rx}
use re_pico.Net.Stack.Resolution.{IsUp, resolution}

abbrev first : Config
first = record { host = home; netmask = 0xffffff00; gateway = 0xc0a800fe }

abbrev second : Config
second = record {
  host = record {
    netif = record { attached = true; is_up = true; tx_result = true; mac_addr = mac_b };
    addr = 0xc0a80003;
    now_ms = 70;
  };
  netmask = 0xffffff00;
  gateway = 0xc0a800fe;
}

first-IsUp : IsUp home
first-IsUp = record { attached = refl; up = refl; mac = refl; addr = omega arith }

second-IsUp : IsUp second.host
second-IsUp = record { attached = refl; up = refl; mac = refl; addr = omega arith }

abbrev buffer : List ℕ
buffer = replicate 1664 0

resolution_example :
    (query : List ℕ) × (reply : List ℕ) × (table_b' : List Entry) × (flushed_b : List (List ℕ))
    × (table_a' : List Entry) × (flushed_a : List (List ℕ)) × ((request home
          (some buffer)
          0xc0a80003).0
        ≡ query ∷ [])
    × (rx second (some buffer) query demo ≡ ok (table_b', flushed_b ++ reply ∷ [], none))
    × (lookup table_b' 0xc0a80001 ≡ some home.netif.mac_addr)
    × (rx first none reply demo ≡ ok (table_a', flushed_a, none))
    × (lookup table_a' 0xc0a80003 ≡ some mac_b)
resolution_example =
    resolution first second buffer buffer none demo demo first-IsUp second-IsUp
      (length-replicate {A = ℕ} 1664 0) (length-replicate {A = ℕ} 1664 0) demo-Unique demo-Unique
      (omega arith) (omega arith)
