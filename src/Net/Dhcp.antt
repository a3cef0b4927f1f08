-- ===== src/Net/Dhcp.antt =====
-- submodules/re-net/src/net/dhcp.hpp and dhcp.cpp: the messages of the client, and what a received
-- one does to it. An address stands as its four bytes; the event `reply` is a flag. The
-- task is in Task.
pub mod Arrival
pub mod Replies
pub mod Task
pub mod Tests
use re_pico.Base.{
  ℕ, zero, suc, ◌+◌, ◌-◌, ◌*◌, ◌^◌, List, [], ◌∷◌, ◌++◌, Bool, true, false, ◌&&◌, ◌||◌, not, bit_or,
  u8, ltb, leb, ◌==◌, ◌<<◌, if◌then◌else◌, get_or, take, drop, length, replicate,
}
use re_pico.Base.Run.{Run, ok, fails, fault, out_of_fuel, ◌>>=◌, ensure}
use re_pico.Net.Wire.{be32, get32}

abbrev pub magic_cookie : ℕ
magic_cookie = 0x63825363

abbrev pub boot_request : ℕ
boot_request = 1

abbrev pub boot_reply : ℕ
boot_reply = 2

abbrev pub type_discover : ℕ
type_discover = 1

abbrev pub type_offer : ℕ
type_offer = 2

abbrev pub type_request : ℕ
type_request = 3

abbrev pub type_ack : ℕ
type_ack = 5

abbrev pub type_nak : ℕ
type_nak = 6

pub data State : Type 0 where
  idle selecting requesting bound renewing : State

pub record Lease : Type 0 where
  pub addr : List ℕ
  pub netmask : List ℕ
  pub router : List ℕ
  pub server_id : List ℕ
  pub lease_s : ℕ

abbrev pub no_addr : List ℕ
no_addr = 0 ∷ 0 ∷ 0 ∷ 0 ∷ []

abbrev pub no_lease : Lease
no_lease = record {
  addr = no_addr;
  netmask = no_addr;
  router = no_addr;
  server_id = no_addr;
  lease_s = 0;
}

pub record Client : Type 0 where
  pub state : State
  pub xid : ℕ
  pub lease : Lease
  pub reply_type : ℕ
  pub reply_lease : Lease
  pub reply : Bool

abbrev pub same_addr : List ℕ → List ℕ → Bool
same_addr [] [] = true
same_addr [] (y ∷ ys) = false
same_addr (x ∷ xs) [] = false
same_addr (x ∷ xs) (y ∷ ys) = (x == y) && same_addr xs ys

abbrev is_renewing : State → Bool
is_renewing State.renewing = true
is_renewing _ = false

-- `Header`, 240 bytes.
unfoldable pub header_bytes : ℕ → ℕ → List ℕ → List ℕ → List ℕ → List ℕ
header_bytes op xid ciaddr yiaddr mac =
    (op ∷ 1 ∷ 6 ∷ 0 ∷ be32 xid)
    ++ (replicate 4 0
        ++ (ciaddr
            ++ (yiaddr ++ (replicate 8 0 ++ (mac ++ (replicate 202 0 ++ be32 magic_cookie))))))

-- The function `opt` of `send_message`.
unfoldable pub option_bytes : ℕ → List ℕ → List ℕ
option_bytes code body = code ∷ u8 (length body) ∷ body

-- The bytes that `send_message` hands to `udp::send`; they are at most 261, which a packet holds.
unfoldable pub message_bytes : Client → List ℕ → List ℕ → ℕ → List ℕ
message_bytes c mac addr type =
    let renewing = is_renewing c.state in
    header_bytes boot_request c.xid (if renewing then addr else no_addr) no_addr mac
    ++ (option_bytes 53 (type ∷ [])
        ++ ((if type == type_request && not renewing
              then option_bytes 50 c.lease.addr ++ option_bytes 54 c.lease.server_id
              else [])
            ++ (option_bytes 55 (1 ∷ 3 ∷ 6 ∷ []) ++ 255 ∷ [])))

-- Where it goes to: the server at a renewal, else everybody.
unfoldable pub message_dst : Client → List ℕ
message_dst c = if is_renewing c.state then c.lease.server_id else replicate 4 255

-- What `parse_reply` has read.
pub record Parsed : Type 0 where
  pub type : ℕ
  pub lease : Lease

-- The `switch` on the code of an option.
unfoldable pub take_option : ℕ → List ℕ → Parsed → Run Parsed
take_option code body p =
    if code == 53
    then (do _ ← ensure (length body == 1); ok (record p { type = get_or body 0 0 }))
    else if code == 1
    then (do
      _ ← ensure (length body == 4)
      ok (record p { lease = record p.lease { netmask = take 4 body } }))
    else if code == 3
    then (do
      _ ← ensure (leb 4 (length body))
      ok (record p { lease = record p.lease { router = take 4 body } }))
    else if code == 54
    then (do
      _ ← ensure (length body == 4)
      ok (record p { lease = record p.lease { server_id = take 4 body } }))
    else if code == 51
    then (do
      _ ← ensure (length body == 4)
      ok (record p {
        lease = record p.lease {
          lease_s =
              bit_or
                (bit_or (bit_or (get_or body 0 0 << 24) (get_or body 1 0 << 16))
                  (get_or body 2 0 << 8))
                (get_or body 3 0);
        };
      }))
    else ok p

-- The loop of `parse_reply`; the options end with the code 255.
unfoldable pub option_loop : ℕ → List ℕ → Parsed → Run Parsed
option_loop zero r p = out_of_fuel
option_loop (suc fuel) [] p = fails
option_loop (suc fuel) (code ∷ r) p = elim (code == 0) [
  | true ↦ option_loop fuel r p
  | false ↦ elim (code == 255) [
    | true ↦ ok p
    | false ↦ elim r [
      | [] ↦ fails
      | len ∷ rest ↦ do
        _ ← ensure (leb len (length rest))
        p' ← take_option code (take len rest) p
        option_loop fuel (drop len rest) p'
    ]
  ]
]

unfoldable pub parse_reply : List ℕ → List ℕ → Run Parsed
parse_reply yiaddr options = do
  p ←
      option_loop (length options + 1) options
        (record { type = 0; lease = record no_lease { addr = yiaddr } })
  _ ← ensure (not (p.type == 0))
  ok p

-- Whether a message advances the state.
unfoldable pub advances : State → Parsed → Bool
advances State.selecting p = (p.type == type_offer) && not (same_addr p.lease.server_id no_addr)
advances State.requesting p = (p.type == type_ack) || (p.type == type_nak)
advances State.renewing p = (p.type == type_ack) || (p.type == type_nak)
advances State.idle p = false
advances State.bound p = false

-- The datagram is for this client's exchange.
unfoldable pub is_ours : List ℕ → Client → List ℕ → Bool
is_ours mac c bytes =
    leb 240 (length bytes)
    && ((get_or bytes 0 0 == boot_reply)
        && ((get32 bytes 4 == c.xid)
            && ((get32 bytes 236 == magic_cookie) && same_addr (take 6 (drop 28 bytes)) mac)))

abbrev taken : Client → Run Parsed → Client
taken c (ok p) =
    if advances c.state p
    then record c { reply_type = p.type; reply_lease = p.lease; reply = true }
    else c
taken c fails = c
taken c fault = c
taken c out_of_fuel = c

unfoldable pub on_socket_rx : List ℕ → List ℕ → Client → Client
on_socket_rx mac bytes c =
    if is_ours mac c bytes
    then taken c (parse_reply (take 4 (drop 16 bytes)) (drop 240 bytes))
    else c
