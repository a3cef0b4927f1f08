-- ===== src/Halow.antt =====
-- src/halow: the transport between the host and the radio chip.
pub mod Crc
pub mod Delim
pub mod Tests
