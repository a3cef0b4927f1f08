-- ===== src/Lib.antt =====
-- Verification library of re-pico, the firmware of a Wi-Fi HaLow station on small microcontrollers.
--
-- The program. src/halow drives the radio: firmware upload (compressed with DEFLATE and unpacked by
-- src/inflate.cpp), commands, scan, connection and the exchange of frames with the chip.
-- submodules/re-connect and re-crypto carry the association and its keys, submodules/re-net the
-- network stack over the frames (Ethernet, ARP, IPv4, ICMP, UDP, DHCP and TCP), submodules/coop the
-- cooperative tasks that all of this runs in, submodules/nolibc++ the replacement of the C++ library.
--
-- The library, and the code that each part is about:
--
-- Base: what the modules share: casts and shifts of C++ on the native numbers, the laws of the bit
-- operations, arrays and spans as lists, and `Run`, the result of code that can fail. An access out
-- of bounds is `fault`, the code's own error return is `fails`, and a loop on fuel that has run out
-- is `out_of_fuel`; a theorem that says `Ensures` excludes the first and the last, one that says
-- `Yields` excludes all three.
-- Inflate: src/inflate.cpp. Reader is `BitReader`, Huffman the tables, Codes the symbols of a block,
-- Blocks the three kinds of block and `inflate`. The source and the destination are lists; `usize`
-- has 32 bits, and sizes below 2 ^ 28 bytes keep all sums of the code inside it. The loops over
-- symbols and blocks have one round more than the source has bits, enough since a round takes a
-- bit at least.
-- Net.Wire, Net.Checksum: the big-endian fields of packet headers and the checksums of
-- submodules/re-net/src/net/ip.cpp. Folding has three rounds, enough for 32 bits.
-- Net.Packet: submodules/re-net/src/net/packet.hpp and packet.cpp: the window of valid bytes in the
-- buffer of a packet, and in Pool the free list.
-- Net.Ipv4, Net.Udp, Net.Icmp: ip.cpp, udp.cpp and icmp.cpp of the same directory. What a layer hands to
-- the one above, or to a function of the application, is part of its result. Net.Stack is `NetIf::rx` of
-- stack.cpp.
-- Net.Tcp: submodules/re-net/src/net/tcp.hpp and tcp.cpp. Seq has the comparisons of sequence
-- numbers, Conn the connection and its states, Ring the receive ring, Segment the segments that are
-- sent, Input what a segment does to a connection, Table the connection table, `input`, `tick` and
-- `Conn::listen`, Send the steps of `Conn::accept`, `send` and `recv` between their waits, where an
-- inner loop of `send` has one round more than the data has bytes, enough since a round sends a byte at
-- least. Connections are objects of the application that the table points to: they stand in
-- a list, and a slot of the table holds a place in it. `input` is cut at its comments into
-- functions, one for each part. The packets that go out are the bytes handed to `ipv4::output`,
-- which resolves addresses and may wait; a call of `input` is taken as one step. Whether the pool
-- has a packet, the address of the stack and the clocks are arguments, and so is, for `send`, what
-- `ipv4::output` returns for a packet; the other callers pass over it. An event is a flag that says
-- whether it has been notified.
--
-- Net.Dhcp: dhcp.hpp and dhcp.cpp of the same directory. The module itself has the messages and
-- `on_socket_rx`, Task the task and `transact`, cut at the places where they wait; a datagram can come
-- in between any two steps. Replies is not code of the repository: the options as a server writes
-- them. The loop over the options has one round more than they have bytes, enough since a round takes
-- a byte at least.
-- Net.Ethernet, Net.Arp: `Stack::eth_send` of stack.cpp, and arp.hpp and arp.cpp of the same
-- directory. The table is a list of any length (the code's has 8 slots), the frames that a call hands
-- to the interface are part of its result, and the clock does not wrap around 64 bits. A call is one
-- step, though the code may wait in it for the interface. The frame's bytes stand for the packet with
-- the header that `prepend` made room for.
-- Crypto: submodules/re-crypto/src/crypto. Sha256 is sha256.hpp and sha256.cpp, Hmac hmac-sha256.cpp, Kdf
-- kdf.cpp, Aes aes.cpp, KeyWrap aes-keywrap.cpp. The buffer of a hash context is not set when it is made:
-- `junk` and `buf` stand for what it holds. Messages are below 2 ^ 61 bytes, keys and pieces below
-- 2 ^ 60, so that the 64 bits of the length do not wrap. The loops that fill an output have one round
-- more than the output has bytes, enough since a round writes a byte at least. The bytes of the round
-- keys stand one block behind the other; the tables are computed from their definition, as in the
-- source.
--
-- Crypto.Cmac: aes-cmac.cpp of the same directory.
-- Connect: submodules/re-connect/src/connect. Eapol is the supplicant of eapol.hpp and eapol.cpp:
-- Frame has the headers of dot1x.hpp, KeyData `parse_key_data`, Ptk `derive_ptk`, Reply
-- `build_reply`, Supplicant the state and `on_frame`. An error return of `on_frame` or of
-- `parse_key_data` carries the state as it is then (Base.Outcome), since both return after changes.
-- The result of the random number generator is an argument. Authenticator is not code of the
-- repository: it describes the other end of the handshake, after the standard. The loop over the
-- key data has one round more than the data has bytes, enough since a round takes two at least.
--
-- Halow.Crc: src/halow/crc.hpp. Halow.Delim: the words in front of the frames of the stream, in
-- src/halow/yaps.cpp, `delim_crc`, `make_delim` and the checks at the head of `yaps_rx`; the word read
-- from the chip and the size of the reserved part are arguments.
--
-- Not modelled: the coroutines of TCP that change the table between their waits (connect, close,
-- abort), the reading of addresses from text, the rest of the driver of the radio,
-- the elliptic curve and the authentication over it (SAE), the tasks, the replacement of the C++ library, and
-- the code for the two boards.
pub mod Base
pub mod Inflate
pub mod Net
pub mod Halow
pub mod Crypto
pub mod Connect
