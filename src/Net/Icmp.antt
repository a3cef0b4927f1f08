-- ===== src/Net/Icmp.antt =====
-- submodules/re-net/src/net/icmp.hpp and icmp.cpp: echo requests and replies. What `input` gives to the
-- application's hook is part of its result.
pub mod Ping
pub mod Tests
use re_pico.Base.{
  ℕ, zero, suc, ◌+◌, ◌-◌, List, [], ◌∷◌, ◌++◌, Bool, true, false, Option, none, some, ltb, ◌==◌,
  if◌then◌else◌, u8, get_or, take, drop, length,
}
use re_pico.Base.Run.{Run, ok, fails, fault, out_of_fuel, ◌>>=◌}
use re_pico.Net.Wire.{be16, get16}
use re_pico.Net.Checksum.{checksum}
use re_pico.Net.Packet.{Packet, data_of, append, prepend}
use re_pico.Net.Ethernet.{Sent}
use re_pico.Net.Arp.{Entry}
use re_pico.Net.Ipv4.{Config}
use re_pico.Net.Ipv4

abbrev pub echo_reply : ℕ
echo_reply = 0

abbrev pub echo_request : ℕ
echo_request = 8

abbrev pub echo_header_size : ℕ
echo_header_size = 8

abbrev pub proto_icmp : ℕ
proto_icmp = 1

-- The request with its type, code and checksum written over.
unfoldable pub reflect : List ℕ → Run (List ℕ)
reflect bytes = do
  sum ← checksum (echo_reply ∷ 0 ∷ be16 0 ++ drop 4 bytes)
  ok (echo_reply ∷ 0 ∷ be16 sum ++ drop 4 bytes)

-- What the hook is told of a reply.
pub record Echo : Type 0 where
  pub src : ℕ
  pub id : ℕ
  pub seq : ℕ
  pub body : List ℕ

-- What `input` does with a message.
pub data Action : Type 0 where
  drops : Action
  reflects : List ℕ → Action
  reports : Echo → Action

unfoldable pub handle : ℕ → List ℕ → Run Action
handle src bytes =
    if ltb (length bytes) echo_header_size
    then ok drops
    else if get_or bytes 0 0 == echo_request
    then (do reply ← reflect bytes; ok (reflects reply))
    else if get_or bytes 0 0 == echo_reply
    then ok (
        reports (record {
          src = src;
          id = get16 bytes 4;
          seq = get16 bytes 6;
          body = drop echo_header_size bytes;
        }))
    else ok drops

-- Without a hook a reply is dropped. The result of sending is not looked at.
unfoldable pub act :
    Config
    → Option (List ℕ)
    → Bool
    → ℕ
    → ℕ
    → Packet
    → List Entry
    → Action
    → Run (List Entry × List (List ℕ) × ℕ × Option Echo)
act c spare has_hook ident src packet table drops = ok (table, [], ident, none)
act c spare has_hook ident src packet table (reports echo) =
    ok (table, [], ident, if has_hook then some echo else none)
act c spare has_hook ident src packet table (reflects reply) =
    let answer = record packet {
      buf = take packet.head packet.buf ++ (reply ++ drop (packet.head + packet.len) packet.buf);
    } in
    elim (Ipv4.output c spare ident src proto_icmp answer table) [
      | ok (table', sent, ident') ↦ ok (table', sent.0, ident', none)
      | fails ↦ ok (table, [], ident, none)
      | fault ↦ fault
      | out_of_fuel ↦ out_of_fuel
    ]

unfoldable pub input :
    Config
    → Option (List ℕ)
    → Bool
    → ℕ
    → ℕ
    → Packet
    → List Entry
    → Run (List Entry × List (List ℕ) × ℕ × Option Echo)
input c spare has_hook ident src packet table = do
  action ← handle src (data_of packet)
  act c spare has_hook ident src packet table action

-- `data[i] = u8(i)`.
unfoldable pub payload : ℕ → ℕ → List ℕ
payload zero i = []
payload (suc n) i = u8 i ∷ payload n (i + 1)

-- The message that `send_echo` builds.
unfoldable pub request_bytes : ℕ → ℕ → List ℕ → Run (List ℕ)
request_bytes id seq body = do
  sum ← checksum (echo_request ∷ 0 ∷ be16 0 ++ (be16 id ++ (be16 seq ++ body)))
  ok (echo_request ∷ 0 ∷ be16 sum ++ (be16 id ++ (be16 seq ++ body)))

unfoldable pub send_echo :
    Config
    → Option (List ℕ)
    → Option (List ℕ)
    → ℕ
    → ℕ
    → ℕ
    → ℕ
    → ℕ
    → List Entry
    → Run (List Entry × Sent × ℕ)
send_echo c own spare ident dst id seq payload_len table = elim own [
  | none ↦ fails
  | some buf ↦ elim (append (record { head = 42; len = 0; buf = buf }) payload_len) [
    | none ↦ fails
    | some room ↦ elim (prepend room.0 echo_header_size) [
      | none ↦ fails
      | some raw ↦ do
        bytes ← request_bytes id seq (payload payload_len 0)
        Ipv4.output c spare ident dst proto_icmp
            (record raw {
              buf = take raw.head buf ++ (bytes ++ drop (raw.head + length bytes) buf);
            })
            table
    ]
  ]
]
