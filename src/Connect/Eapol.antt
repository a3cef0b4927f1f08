-- ===== src/Connect/Eapol.antt =====
-- submodules/re-connect/src/connect/eapol.cpp: the supplicant's side of the four-way handshake.
pub mod Frame
pub mod KeyData
pub mod Ptk
pub mod Reply
pub mod Supplicant
pub mod Authenticator
pub mod Vectors
pub mod Tests
