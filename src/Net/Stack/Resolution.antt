-- ===== src/Net/Stack/Resolution.antt =====
-- An address is resolved between two stations: the frames of one as the other receives them.
use re_pico.Base.{
  ℕ, ◌^◌, ◌<◌, ◌≡◌, refl, ap, ◌∙◌, List, [], ◌∷◌, ◌++◌, true, false, Option, some, none, ltb,
  length, take, drop, arith, length-append, length-take, ◌==◌,
}
use re_pico.Base.Run.{ok, of_option, ◌>>=◌}
use re_pico.Base.Slices.{take-append_self, drop-append_past}
use re_pico.Net.Wire.{be16, be32}
use re_pico.Net.Packet.{append, prepend}
use re_pico.Net.Ethernet.{eth_send, link_send, ether_type_arp}
use re_pico.Net.Arp.{
  Host, Entry, packet_bytes, send, request, op_request, op_reply, broadcast, lookup, cache,
}
use re_pico.Net.Arp
use re_pico.Net.Arp.Table.{Unique}
use re_pico.Net.Arp.Flow.{cache_lem}
use re_pico.Net.Arp.Messages.{six, parse-packet_bytes}
use re_pico.Net.Ipv4.{Config}
use re_pico.Net.Stack.{rx}

-- A station whose interface is up, with a hardware address of six bytes and an address of 32 bits.
pub record IsUp (h : Host) : Type 0 where
  pub attached : h.netif.attached ≡ true
  pub up : h.netif.is_up ≡ true
  pub mac : length h.netif.mac_addr ≡ 6
  pub addr : h.addr < 2 ^ 32

abbrev frame_of : List ℕ → List ℕ → List ℕ → List ℕ
frame_of dst src body = dst ++ (src ++ (be16 ether_type_arp ++ body))

packet_bytes-length :
    (op si ti : ℕ) (sm tm : List ℕ)
    → length sm ≡ 6
    → length tm ≡ 6
    → length (packet_bytes op sm si tm ti) ≡ 28
unfolding packet_bytes
packet_bytes-length op si ti sm tm hs ht =
    omega (arith, hs, ht, length-append sm (be32 si ++ (tm ++ be32 ti)), length-append tm (be32 ti))

-- What `send` hands to the interface.
send_lem :
    (h : Host) (buf : List ℕ) (op : ℕ) (dst tm : List ℕ) (ti : ℕ)
    → IsUp h
    → length buf ≡ 1664
    → length tm ≡ 6
    → (send h (some buf) op dst tm ti).0
      ≡ frame_of dst h.netif.mac_addr (packet_bytes op h.netif.mac_addr h.addr tm ti) ∷ []
unfolding send eth_send link_send append prepend
send_lem h buf op dst tm ti v size ht =
    let body = packet_bytes op h.netif.mac_addr h.addr tm ti in
    let n = packet_bytes-length op h.addr ti h.netif.mac_addr tm v.mac ht in
    let inner : take 28 (drop 14 (take 14 buf ++ (body ++ drop 42 buf))) ≡ body =
      ap (take 28) (
        drop-append_past 14 0 (take 14 buf) (body ++ drop 42 buf)
          (omega (arith, length-take 14 buf, size)))
      ∙ take-append_self 28 body (drop 42 buf) n in
    rw (v.attached, v.up, inner) refl

rx_lem :
    (c : Config) (spare : Option (List ℕ)) (dst src body : List ℕ) (table : List Entry)
    → length dst ≡ 6
    → length src ≡ 6
    → rx c spare (frame_of dst src body) table
      ≡ (of_option (Arp.input c.host spare body table) >>= (λ r. ok (r.0, r.1, none)))
unfolding rx
rx_lem c spare dst src body table hd hs =
    six
      (λ d.
        rx c spare (frame_of d src body) table
        ≡ (of_option (Arp.input c.host spare body table) >>= (λ r. ok (r.0, r.1, none))))
      (λ a b x d e f.
        six
          (λ s.
            rx c spare (frame_of (a ∷ b ∷ x ∷ d ∷ e ∷ f ∷ []) s body) table
            ≡ (of_option (Arp.input c.host spare body table) >>= (λ r. ok (r.0, r.1, none))))
          (λ a' b' c' d' e' f'.
            let frame =
              frame_of (a ∷ b ∷ x ∷ d ∷ e ∷ f ∷ []) (a' ∷ b' ∷ c' ∷ d' ∷ e' ∷ f' ∷ []) body in
            let long : ltb (length frame) 14 ≡ false = ground arith in rw (long, rx) refl)
          src hs)
      dst hd

-- A packet of ARP: its sender is learned, and a request for our address is answered.
input_request :
    (h : Host) (buf : List ℕ) (sm : List ℕ) (si : ℕ) (table table' : List Entry)
    (frames : List (List ℕ))
    → length sm ≡ 6
    → si < 2 ^ 32
    → h.addr < 2 ^ 32
    → cache h si sm table ≡ some (table', frames)
    → Arp.input h
        (some buf)
        (packet_bytes op_request sm si (0 ∷ 0 ∷ 0 ∷ 0 ∷ 0 ∷ 0 ∷ []) h.addr)
        table
      ≡ some (table', frames ++ (send h (some buf) op_reply sm sm si).0)
unfolding Arp.input
input_request h buf sm si table table' frames hm hs ha learnt =
    let own : (h.addr == h.addr) ≡ true = ground arith in
    rw
      (
        parse-packet_bytes op_request sm si (0 ∷ 0 ∷ 0 ∷ 0 ∷ 0 ∷ 0 ∷ []) h.addr (omega arith) hm hs
            refl ha,
        learnt,
        own,
        Arp.input,
      )
      refl

input_reply :
    (h : Host) (spare : Option (List ℕ)) (sm : List ℕ) (si : ℕ) (tm : List ℕ) (ti : ℕ)
    (table table' : List Entry) (frames : List (List ℕ))
    → length sm ≡ 6
    → si < 2 ^ 32
    → length tm ≡ 6
    → ti < 2 ^ 32
    → cache h si sm table ≡ some (table', frames)
    → Arp.input h spare (packet_bytes op_reply sm si tm ti) table ≡ some (table', frames)
unfolding Arp.input
input_reply h spare sm si tm ti table table' frames hm hs ht hi learnt =
    rw (parse-packet_bytes op_reply sm si tm ti (omega arith) hm hs ht hi, learnt, Arp.input) refl

-- Two stations whose interfaces are up resolve each other with one request and one reply: the frame that
-- one broadcasts makes the other learn it and answer, and the answer makes the first learn the other.
-- Both need a free packet and a table with a slot.
pub resolution :
    (a b : Config) (buf_a buf_b : List ℕ) (spare : Option (List ℕ)) (table_a table_b : List Entry)
    → IsUp a.host
    → IsUp b.host
    → length buf_a ≡ 1664
    → length buf_b ≡ 1664
    → Unique table_a
    → Unique table_b
    → 0 < length table_a
    → 0 < length table_b
    → (query : List ℕ) × (reply : List ℕ) × (table_b' : List Entry) × (flushed_b : List (List ℕ))
      × (table_a' : List Entry) × (flushed_a : List (List ℕ)) × ((request a.host
            (some buf_a)
            b.host.addr).0
          ≡ query ∷ [])
      × (rx b (some buf_b) query table_b ≡ ok (table_b', flushed_b ++ reply ∷ [], none))
      × (lookup table_b' a.host.addr ≡ some a.host.netif.mac_addr)
      × (rx a spare reply table_a ≡ ok (table_a', flushed_a, none))
      × (lookup table_a' b.host.addr ≡ some b.host.netif.mac_addr)
unfolding request
resolution a b buf_a buf_b spare table_a table_b va vb size_a size_b ua ub some_a some_b =
    let mac_a = a.host.netif.mac_addr in
    let mac_b = b.host.netif.mac_addr in
    let zeros = 0 ∷ 0 ∷ 0 ∷ 0 ∷ 0 ∷ 0 ∷ [] in
    let ask = packet_bytes op_request mac_a a.host.addr zeros b.host.addr in
    let tell = packet_bytes op_reply mac_b b.host.addr mac_a a.host.addr in
    let query = frame_of broadcast mac_a ask in
    let reply = frame_of mac_a mac_b tell in
    let (table_b', flushed_b, learnt_b, ub', nb, found_b, rest_b, _) =
      cache_lem b.host a.host.addr mac_a table_b ub some_b in
    let (table_a', flushed_a, learnt_a, ua', na, found_a, rest_a, _) =
      cache_lem a.host b.host.addr mac_b table_a ua some_a in
    let answered : Arp.input b.host (some buf_b) ask table_b
        ≡ some (table_b', flushed_b ++ reply ∷ []) =
      input_request b.host buf_b mac_a a.host.addr table_b table_b' flushed_b va.mac va.addr vb.addr
        learnt_b
      ∙ ap (λ (f : List (List ℕ)). some (table_b', flushed_b ++ f))
          (send_lem b.host buf_b op_reply mac_a mac_a a.host.addr vb size_b va.mac) in
    (
      query,
      reply,
      table_b',
      flushed_b,
      table_a',
      flushed_a,
      send_lem a.host buf_a op_request broadcast zeros b.host.addr va size_a refl,
      rx_lem b (some buf_b) broadcast mac_a ask table_b refl va.mac ∙ rw answered refl,
      found_b,
      rx_lem a spare mac_a mac_b tell table_a va.mac vb.mac
          ∙ rw
              (input_reply a.host spare mac_b b.host.addr mac_a a.host.addr table_a table_a'
                flushed_a vb.mac vb.addr va.mac va.addr learnt_a)
              refl,
      found_a,
    )
