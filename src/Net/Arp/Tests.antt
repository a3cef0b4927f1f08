-- ===== src/Net/Arp/Tests.antt =====
-- A table with a neighbour and room: the tests and the examples of the theorems.
use re_pico.Base.{
  ℕ, zero, suc, ◌≡◌, ◌≢◌, refl, ap, List, [], ◌∷◌, ◌++◌, true, false, none, some, replicate, length,
  arith,
}
use re_pico.Net.Packet.{Packet, data_of}
use re_pico.Net.Wire.{be16}
use re_pico.Net.Ethernet.{Sent, ether_type_ipv4}
use re_pico.Net.Arp.{
  Host, Entry, resolved, fresh_entry, matches, find, find_from, cache, lookup, resolve_and_send,
}
use re_pico.Net.Arp.Table.{slot, Unique, Forgets, exclusive}
use re_pico.Net.Arp.Flow.{cache_lem}
use re_pico.Net.Arp.Delivery.{cache-resolve_and_send}

abbrev pub mac_a : List ℕ
mac_a = 2 ∷ 0 ∷ 0 ∷ 0 ∷ 0 ∷ 1 ∷ []

abbrev pub mac_b : List ℕ
mac_b = 2 ∷ 0 ∷ 0 ∷ 0 ∷ 0 ∷ 2 ∷ []

abbrev pub home : Host
home = record {
  netif = record { attached = true; is_up = true; tx_result = true; mac_addr = mac_a };
  addr = 0xc0a80001;
  now_ms = 5000;
}

abbrev pub neighbour : Entry
neighbour = record {
  ip = 0xc0a80002;
  mac = mac_b;
  state = resolved;
  retries = 0;
  deadline_ms = 63000;
  last_used_ms = 3000;
  held = none;
}

abbrev pub demo : List Entry
demo = neighbour ∷ replicate 7 fresh_entry

all_free : (n j : ℕ) → slot (replicate n fresh_entry) j ≡ fresh_entry
all_free zero j = refl
all_free (suc n) zero = refl
all_free (suc n) (suc j) = all_free n j

not_there : (ip n j : ℕ) → matches ip (slot (replicate n fresh_entry) j) ≡ false
not_there ip n j = ap (matches ip) (all_free n j)

pub demo-Unique : Unique demo
unfolding Unique
demo-Unique ip zero zero hi hj = refl
demo-Unique ip i (suc j) hi hj =
    exclusive (matches ip (slot (replicate 7 fresh_entry) j)) hj (not_there ip 7 j)
demo-Unique ip (suc i) zero hi hj =
    exclusive (matches ip (slot (replicate 7 fresh_entry) i)) hi (not_there ip 7 i)

abbrev router : ℕ
router = 0xc0a800fe

unknown : lookup demo router ≡ none
unfolding lookup find find_from
unknown = refl

known : lookup demo 0xc0a80002 ≡ some mac_b
unfolding lookup find find_from
known = refl

abbrev message : Packet
message = record { head = 34; len = 20; buf = replicate 1664 0 }

cache_lem_example :
    (table' : List Entry) × (frames : List (List ℕ)) × (cache home router mac_b demo
      ≡ some (table', frames))
    × Unique table'
    × (length table' ≡ length demo)
    × (lookup table' router ≡ some mac_b)
    × ((ip' : ℕ) → ip' ≢ router → Forgets demo table' ip')
    × ((i : ℕ) × ((j : ℕ) → i ≢ j → slot table' j ≡ slot demo j))
cache_lem_example = cache_lem home router mac_b demo demo-Unique (omega arith)

cache-resolve_and_send_example :
    (table' : List Entry) × (table'' : List Entry) × (sent : Sent) × (resolve_and_send home none
        router message demo
      ≡ some (table', sent))
    × (cache home router mac_a table'
        ≡ some (
          table'',
          (mac_a ++ (home.netif.mac_addr ++ (be16 ether_type_ipv4 ++ data_of message))) ∷ [],
        ))
    × (lookup table'' router ≡ some mac_a)
cache-resolve_and_send_example =
    cache-resolve_and_send home home none router mac_a message demo demo-Unique (omega arith)
      (omega arith) unknown refl refl (omega arith)

abbrev later : ℕ → Host
later t = record home { now_ms = t }

-- A tick every quarter of a second or later, most of them too early.
abbrev ticks : List Host
ticks = later 5500 ∷ later 6000 ∷ (later 6250 ∷ later 7000 ∷ (later 7750 ∷ later 8000 ∷ []))
