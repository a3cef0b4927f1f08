-- ===== src/Net/Ethernet.antt =====
-- submodules/re-net/src/net/ethernet.hpp and `Stack::send` and `Stack::eth_send` of stack.cpp. What
-- the interface answers is an argument: whether there is one, whether it is up and what `tx` returns.
use re_pico.Base.{ℕ, List, [], ◌∷◌, ◌++◌, Bool, false, none, some, ◌&&◌, if◌then◌else◌}
use re_pico.Net.Packet.{Packet, data_of, prepend}
use re_pico.Net.Wire.{be16}

abbrev pub ethernet_header_size : ℕ
ethernet_header_size = 14

abbrev pub ether_type_ipv4 : ℕ
ether_type_ipv4 = 0x0800

abbrev pub ether_type_arp : ℕ
ether_type_arp = 0x0806

pub record NetIf : Type 0 where
  pub attached : Bool
  pub is_up : Bool
  pub tx_result : Bool
  pub mac_addr : List ℕ

-- The frames that were handed to the interface, and the result.
abbrev pub Sent : Type 0
Sent = List (List ℕ) × Bool

unfoldable pub link_send : NetIf → List ℕ → Sent
link_send n frame = if n.attached && n.is_up then (frame ∷ [], n.tx_result) else ([], false)

-- The bytes behind the header are those that the packet held (`prepend-consume`).
unfoldable pub eth_send : NetIf → List ℕ → ℕ → Packet → Sent
eth_send n dst ethertype packet =
    if n.attached
    then elim (prepend packet ethernet_header_size) [
      | none ↦ ([], false)
      | some raw ↦ link_send n (dst ++ (n.mac_addr ++ (be16 ethertype ++ data_of packet)))
    ]
    else ([], false)
