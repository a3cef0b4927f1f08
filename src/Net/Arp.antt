-- ===== src/Net/Arp.antt =====
-- submodules/re-net/src/net/arp.hpp and arp.cpp. An IPv4 address is a number, a hardware address six
-- bytes. A call is one step: the frames it hands to the interface are part of its result. `spare`
-- is the buffer that `packet_alloc` yields, if the pool has one.
pub mod Table
pub mod Flow
pub mod Timeout
pub mod Messages
pub mod Delivery
pub mod Tests
use re_pico.Base.{
  ℕ, zero, suc, ◌+◌, ◌-◌, List, [], ◌∷◌, ◌++◌, Bool, true, false, ◌&&◌, ◌||◌, not, Option, none,
  some, ltb, leb, ◌==◌, if◌then◌else◌, get_or, set, take, drop, length, replicate,
}
use re_pico.Net.Wire.{be16, be32, get16, get32}
use re_pico.Net.Packet.{Packet, data_of, append}
use re_pico.Net.Ethernet.{
  NetIf, Sent, eth_send, ether_type_ipv4, ether_type_arp, ethernet_header_size,
}

abbrev pub resolved_ttl_ms : ℕ
resolved_ttl_ms = 60000

abbrev pub retry_interval_ms : ℕ
retry_interval_ms = 1000

abbrev pub max_retries : ℕ
max_retries = 3

abbrev pub op_request : ℕ
op_request = 1

abbrev pub op_reply : ℕ
op_reply = 2

pub data State : Type 0 where
  free : State
  pending : State
  resolved : State

pub record Entry : Type 0 where
  pub ip : ℕ
  pub mac : List ℕ
  pub state : State
  pub retries : ℕ
  pub deadline_ms : ℕ
  pub last_used_ms : ℕ
  pub held : Option Packet

abbrev pub fresh_entry : Entry
fresh_entry = record {
  ip = 0;
  mac = replicate 6 0;
  state = free;
  retries = 0;
  deadline_ms = 0;
  last_used_ms = 0;
  held = none;
}

abbrev pub is_free : Entry → Bool
is_free e = elim e.state [ free ↦ true | pending ↦ false | resolved ↦ false ]

abbrev pub is_resolved : Entry → Bool
is_resolved e = elim e.state [ free ↦ false | pending ↦ false | resolved ↦ true ]

-- The parts of the network stack that ARP reads.
pub record Host : Type 0 where
  pub netif : NetIf
  pub addr : ℕ
  pub now_ms : ℕ

abbrev pub matches : ℕ → Entry → Bool
matches ip e = not (is_free e) && (e.ip == ip)

-- The place of the entry, from `i` on.
unfoldable pub find_from : ℕ → ℕ → List Entry → Option ℕ
find_from ip i [] = none
find_from ip i (e ∷ table) =
    let rest = find_from ip (i + 1) table in if matches ip e then some i else rest

unfoldable pub find : ℕ → List Entry → Option ℕ
find ip table = find_from ip 0 table

-- The loop of `alloc`: the place of the first free slot, or of the one least recently used, the
-- victim so far being the entry `e` at `v`.
unfoldable pub alloc_from : ℕ → Entry → ℕ → List Entry → ℕ × Bool
alloc_from v e i [] = (v, false)
alloc_from v e i (x ∷ table) =
    let older = ltb x.last_used_ms e.last_used_ms in
    let rest = alloc_from (if older then i else v) (if older then x else e) (i + 1) table in
    if is_free x then (i, true) else rest

-- `none` where the code would follow the null pointer, in a table without slots.
unfoldable pub alloc : List Entry → Option (ℕ × List Entry)
alloc [] = none
alloc (x ∷ table) =
    if is_free x
    then some (0, x ∷ table)
    else (let (v, found) = alloc_from 0 x 1 table in
        some (v, if found then x ∷ table else set (x ∷ table) v fresh_entry))

-- The ARP packet's 28 bytes.
unfoldable pub packet_bytes : ℕ → List ℕ → ℕ → List ℕ → ℕ → List ℕ
packet_bytes op sender_mac sender_ip target_mac target_ip =
    be16 1
    ++ (be16 ether_type_ipv4
        ++ (6 ∷ 4 ∷ be16 op ++ (sender_mac ++ (be32 sender_ip ++ (target_mac ++ be32 target_ip)))))

unfoldable pub build_request : List ℕ → ℕ → ℕ → List ℕ
build_request sender_mac sender_ip target_ip =
    packet_bytes op_request sender_mac sender_ip (replicate 6 0) target_ip

unfoldable pub send : Host → Option (List ℕ) → ℕ → List ℕ → List ℕ → ℕ → Sent
send h spare op eth_dst target_mac target_ip =
    let body = packet_bytes op h.netif.mac_addr h.addr target_mac target_ip in
    elim spare [
      | none ↦ ([], false)
      | some buf ↦ elim (append (record { head = ethernet_header_size; len = 0; buf = buf }) 28) [
        | none ↦ ([], false)
        | some room ↦
            eth_send h.netif eth_dst ether_type_arp
              (record room.0 { buf = take room.1 buf ++ (body ++ drop (room.1 + 28) buf) })
      ]
    ]

abbrev pub broadcast : List ℕ
broadcast = replicate 6 0xff

unfoldable pub request : Host → Option (List ℕ) → ℕ → Sent
request h spare target_ip = send h spare op_request broadcast (replicate 6 0) target_ip

abbrev pub learned : Host → List ℕ → Entry → Entry
learned h mac e = record e {
  mac = mac;
  state = resolved;
  retries = 0;
  deadline_ms = h.now_ms + resolved_ttl_ms;
  last_used_ms = h.now_ms;
  held = none;
}

-- The packet that waited for the address goes out.
unfoldable pub flush : Host → List ℕ → Option Packet → List (List ℕ)
flush h mac none = []
flush h mac (some packet) = (eth_send h.netif mac ether_type_ipv4 packet).0

-- The table behind the call, and the frames.
unfoldable pub cache : Host → ℕ → List ℕ → List Entry → Option (List Entry × List (List ℕ))
cache h ip mac table = elim (find ip table) [
  | some i ↦
      let e = get_or table i fresh_entry in some (set table i (learned h mac e), flush h mac e.held)
  | none ↦ elim (alloc table) [
    | none ↦ none
    | some slot ↦
        let e = record (get_or slot.1 slot.0 fresh_entry) { ip = ip } in
        some (set slot.1 slot.0 (learned h mac e), flush h mac e.held)
  ]
]

unfoldable pub lookup : List Entry → ℕ → Option (List ℕ)
lookup table ip = elim (find ip table) [
  | none ↦ none
  | some i ↦ (let e = get_or table i fresh_entry in if is_resolved e then some e.mac else none)
]

abbrev pub all_ones_ip : ℕ
all_ones_ip = 0xffffffff

-- A new entry, for which a request goes out.
abbrev pub requested : Host → ℕ → Packet → Entry
requested h next_hop packet = record {
  ip = next_hop;
  mac = replicate 6 0;
  state = pending;
  retries = 1;
  deadline_ms = h.now_ms + retry_interval_ms;
  last_used_ms = h.now_ms;
  held = some packet;
}

abbrev pub used : Host → Entry → Entry
used h e = record e { last_used_ms = h.now_ms }

unfoldable pub resolve_and_send :
    Host → Option (List ℕ) → ℕ → Packet → List Entry → Option (List Entry × Sent)
resolve_and_send h spare next_hop packet table =
    if next_hop == all_ones_ip
    then some (table, eth_send h.netif broadcast ether_type_ipv4 packet)
    else elim (find next_hop table) [
      | some i ↦
          (let e = used h (get_or table i fresh_entry) in
            if is_resolved e
            then some (set table i e, eth_send h.netif e.mac ether_type_ipv4 packet)
            else some (set table i (record e { held = some packet }), ([], true)))
      | none ↦ elim (alloc table) [
        | none ↦ none
        | some slot ↦
            some (set slot.1 slot.0 (requested h next_hop packet), request h spare next_hop)
      ]
    ]

-- The checks and fields of a received packet: operation, sender's addresses, target's address.
unfoldable pub parse : List ℕ → Option (ℕ × List ℕ × ℕ × ℕ)
parse bytes =
    if ltb (length bytes) 28 || not (get16 bytes 0 == 1) || not (get16 bytes 2 == ether_type_ipv4)
    then none
    else some (get16 bytes 6, take 6 (drop 8 bytes), get32 bytes 14, get32 bytes 24)

unfoldable pub input :
    Host → Option (List ℕ) → List ℕ → List Entry → Option (List Entry × List (List ℕ))
input h spare bytes table = elim (parse bytes) [
  | none ↦ some (table, [])
  | some body ↦ elim (cache h body.2 body.1 table) [
    | none ↦ none
    | some after ↦
        if body.0 == op_request && body.3 == h.addr
        then some (after.0, after.1 ++ (send h spare op_reply body.1 body.1 body.2).0)
        else some after
  ]
]

-- One entry's turn in `tick`; the host's clock is the tick's own time.
unfoldable pub tick_entry : Host → Option (List ℕ) → Entry → Entry × List (List ℕ)
tick_entry h spare e = elim e.state [
  | free ↦ (e, [])
  | resolved ↦ if leb e.deadline_ms h.now_ms then (fresh_entry, []) else (e, [])
  | pending ↦
      if leb e.deadline_ms h.now_ms
      then if leb max_retries e.retries then (fresh_entry, []) else (
        record e { retries = e.retries + 1; deadline_ms = h.now_ms + retry_interval_ms },
        (request h spare e.ip).0,
      )
      else (e, [])
]

-- The buffer of a frame goes back to the pool when the frame has been sent.
unfoldable pub tick : Host → Option (List ℕ) → List Entry → List Entry × List (List ℕ)
tick h spare [] = ([], [])
tick h spare (e ∷ table) =
    let (e', frames) = tick_entry h spare e in
    let (table', frames') = tick h spare table in (e' ∷ table', frames ++ frames')
