-- ===== src/Net/Tcp.antt =====
-- submodules/re-net/src/net/tcp.hpp and tcp.cpp, the transmission control protocol.
pub mod Seq
pub mod Conn
pub mod Ring
pub mod Segment
pub mod Valid
pub mod Input
pub mod Table
pub mod Send
pub mod Tests
