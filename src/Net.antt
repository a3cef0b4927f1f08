-- ===== src/Net.antt =====
-- submodules/re-net, the network stack: packets, checksums and the protocols above them.
pub mod Wire
pub mod Checksum
pub mod Packet
pub mod Ethernet
pub mod Arp
pub mod Ipv4
pub mod Udp
pub mod Icmp
pub mod Stack
pub mod Tcp
pub mod Dhcp
