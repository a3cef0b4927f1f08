-- ===== src/Net/Arp/Delivery.antt =====
-- A packet for an address that is not known waits, and goes out when the address is learned.
use re_pico.Base.{
  ℕ, ◌<◌, ◌≡◌, ◌≢◌, refl, ap, ◌∙◌, List, [], ◌∷◌, ◌++◌, ◌≤◌, le→leb, sym, true, false, Option, none,
  some, ◌==◌, set, length, inl, inr, length-set, arith,
}
use re_pico.Net.Packet.{Packet, data_of, prepend}
use re_pico.Net.Wire.{be16}
use re_pico.Net.Ethernet.{NetIf, Sent, link_send, eth_send, ether_type_ipv4}
use re_pico.Net.Arp.{
  Host, Entry, is_resolved, matches, cache, learned, flush, lookup, resolve_and_send, requested,
  request, used, all_ones_ip,
}
use re_pico.Net.Arp.Table.{
  slot, Unique, find_lem, find-at, at_self, answer, lookup-at, lookup-absent,
}
use re_pico.Net.Arp.Flow.{Place, found-Place, alloc-Place, put-Unique, put_self, learned-matches}

not_all_ones : (ip : ℕ) → ip ≢ all_ones_ip → (ip == all_ones_ip) ≡ false
not_all_ones ip h = ground arith

unresolved : (e : Entry) → answer e ≡ none → is_resolved e ≡ false
unresolved e h = ground arith

-- An entry of the address that holds the packet.
pub record Waits (ip : ℕ) (packet : Packet) (table : List Entry) : Type 0 where
  pub sound : Unique table
  pub place : ℕ
  pub inside : place < length table
  pub taken : matches ip (slot table place) ≡ true
  pub holds : (slot table place).held ≡ some packet

waits :
    (ip : ℕ) (packet : Packet) (table table' : List Entry) (i : ℕ) (e : Entry)
    → Place ip table table' i
    → matches ip e ≡ true
    → e.held ≡ some packet
    → Waits ip packet (set table' i e)
waits ip packet table table' i e p he k = record {
  sound = put-Unique ip table table' i p e he;
  place = i;
  inside = omega (arith, p.inside, length-set table' i e);
  taken = ap (matches ip) (at_self table' i e p.inside) ∙ he;
  holds = ap (λ (x : Entry). x.held) (at_self table' i e p.inside) ∙ k;
}

held_back-matches :
    (h : Host) (ip : ℕ) (packet : Packet) (e : Entry)
    → matches ip e ≡ true
    → matches ip (record (used h e) { held = some packet }) ≡ true
held_back-matches h ip packet e k = ground arith

requested-matches :
    (h : Host) (ip : ℕ) (packet : Packet) → matches ip (requested h ip packet) ≡ true
requested-matches h ip packet = ground arith

-- The packet is kept in the table whether a request is under way or goes out now.
resolve_and_send-Waits :
    (h : Host) (spare : Option (List ℕ)) (ip : ℕ) (packet : Packet) (table : List Entry)
    → Unique table
    → 0 < length table
    → ip ≢ all_ones_ip
    → lookup table ip ≡ none
    → (table' : List Entry) × (sent : Sent) × (resolve_and_send h spare ip packet table
        ≡ some (table', sent))
      × (length table' ≡ length table)
      × Waits ip packet table'
unfolding resolve_and_send
resolve_and_send-Waits h spare ip packet table u some_slot ne unknown = elim (find_lem ip table) [
  | inl (i, found, inside, at) ↦
      (let e = record (used h (slot table i)) { held = some packet } in
        let open_entry = unresolved (slot table i) (sym (lookup-at ip i table u at) ∙ unknown) in
        (
          set table i e,
          ([], true),
          rw (not_all_ones ip ne, found, open_entry, resolve_and_send) refl,
          length-set table i e,
          waits ip packet table table i e (found-Place ip i table u inside at)
              (held_back-matches h ip packet (slot table i) at) refl,
        ))
  | inr (absent, free) ↦
      (let (i, table', e', p) = alloc-Place ip table u some_slot free in
        let e = requested h ip packet in
        (
          set table' i e,
          request h spare ip,
          rw (not_all_ones ip ne, absent, e', resolve_and_send) refl,
          length-set table' i e ∙ p.size,
          waits ip packet table table' i e p (requested-matches h ip packet) refl,
        ))
]

-- A packet sent to an address that is not known, and not the one of all ones, is held in the table,
-- which has a slot at least and one for an address at most. When the call of `cache` on that table
-- that comes next learns the address, whatever the clock and the interface are then, the frames that
-- it sends are those of `eth_send` for this packet to the hardware address learned: none where
-- `eth_send` refuses, for want of an interface or of headroom. The address is known from then on.
pub resolve_and_send-cache :
    (h h' : Host) (spare : Option (List ℕ)) (ip : ℕ) (mac : List ℕ) (packet : Packet)
    (table : List Entry)
    → Unique table
    → 0 < length table
    → ip ≢ all_ones_ip
    → lookup table ip ≡ none
    → (table' : List Entry) × (table'' : List Entry) × (sent : Sent) × (resolve_and_send h spare ip
          packet table
        ≡ some (table', sent))
      × (cache h' ip mac table' ≡ some (table'', (eth_send h'.netif mac ether_type_ipv4 packet).0))
      × (lookup table'' ip ≡ some mac)
unfolding cache flush
resolve_and_send-cache h h' spare ip mac packet table u some_slot ne unknown =
    let (table', sent, e, size, w) =
      resolve_and_send-Waits h spare ip packet table u some_slot ne unknown in
    let i = w.place in
    (
      table',
      set table' i (learned h' mac (slot table' i)),
      sent,
      e,
      rw (find-at ip i table' w.sound w.taken, w.holds, cache) refl,
      put_self ip table' table' i (found-Place ip i table' w.sound w.inside w.taken)
          (learned h' mac (slot table' i)) (learned-matches h' ip mac (slot table' i) w.taken),
    )

frame_lem :
    (n : NetIf) (mac : List ℕ) (packet : Packet)
    → n.attached ≡ true
    → n.is_up ≡ true
    → 14 ≤ packet.head
    → (eth_send n mac ether_type_ipv4 packet).0
      ≡ (mac ++ (n.mac_addr ++ (be16 ether_type_ipv4 ++ data_of packet))) ∷ []
unfolding eth_send link_send prepend
frame_lem n mac packet a u room = rw (le→leb 14 packet.head room, a, u, eth_send) refl

-- A packet sent to an address that is not known, and not the one of all ones, is held in the table,
-- which has a slot at least and one for an address at most. The call of `cache` on that table that
-- comes next and learns the address sends one frame: the packet's bytes, as they were given, behind
-- the hardware address learned, that of the interface and the type of IPv4. The packet has headroom
-- for this header, and the interface is attached and up when the address is learned, whatever it was
-- before. The address is known from then on.
pub cache-resolve_and_send :
    (h h' : Host) (spare : Option (List ℕ)) (ip : ℕ) (mac : List ℕ) (packet : Packet)
    (table : List Entry)
    → Unique table
    → 0 < length table
    → ip ≢ all_ones_ip
    → lookup table ip ≡ none
    → h'.netif.attached ≡ true
    → h'.netif.is_up ≡ true
    → 14 ≤ packet.head
    → (table' : List Entry) × (table'' : List Entry) × (sent : Sent) × (resolve_and_send h spare ip
          packet table
        ≡ some (table', sent))
      × (cache h' ip mac table'
          ≡ some (
            table'',
            (mac ++ (h'.netif.mac_addr ++ (be16 ether_type_ipv4 ++ data_of packet))) ∷ [],
          ))
      × (lookup table'' ip ≡ some mac)
cache-resolve_and_send h h' spare ip mac packet table u some_slot ne unknown attached up room =
    let (table', table'', sent, held, flushed, known) =
      resolve_and_send-cache h h' spare ip mac packet table u some_slot ne unknown in
    (
      table',
      table'',
      sent,
      held,
      flushed
          ∙ ap (λ (frames : List (List ℕ)). some (table'', frames))
              (frame_lem h'.netif mac packet attached up room),
      known,
    )

answered : (e : Entry) (mac : List ℕ) → answer e ≡ some mac → (is_resolved e ≡ true) × (e.mac ≡ mac)
answered e mac h = ground arith

apart : {mac : List ℕ} → none ≡ some mac → ⊥
apart h = ground arith

used-matches : (h : Host) (ip : ℕ) (e : Entry) → matches ip e ≡ true → matches ip (used h e) ≡ true
used-matches h ip e k = ground arith

-- To an address that is known the packet goes out at once, and every address keeps its answer.
pub resolve_and_send_lem :
    (h : Host) (spare : Option (List ℕ)) (ip : ℕ) (mac : List ℕ) (packet : Packet)
    (table : List Entry)
    → Unique table
    → ip ≢ all_ones_ip
    → lookup table ip ≡ some mac
    → (table' : List Entry) × (resolve_and_send h spare ip packet table
        ≡ some (table', eth_send h.netif mac ether_type_ipv4 packet))
      × Unique table'
      × (lookup table' ip ≡ some mac)
unfolding resolve_and_send
resolve_and_send_lem h spare ip mac packet table u ne known = elim (find_lem ip table) [
  | inl (i, found, inside, at) ↦
      (let e = used h (slot table i) in
        let (r, m) = answered (slot table i) mac (sym (lookup-at ip i table u at) ∙ known) in
        let p = found-Place ip i table u inside at in
        (
          set table i e,
          rw (not_all_ones ip ne, found, r, m, resolve_and_send) refl,
          put-Unique ip table table i p e (used-matches h ip (slot table i) at),
          put_self ip table table i p e (used-matches h ip (slot table i) at) ∙ rw (r, m) refl,
        ))
  | inr (absent, free) ↦ absurd (apart (sym (lookup-absent ip table absent) ∙ known))
]
