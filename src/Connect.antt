-- ===== src/Connect.antt =====
-- submodules/re-connect/src/connect: joining a protected network.
pub mod Eapol
