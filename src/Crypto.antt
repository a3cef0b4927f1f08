-- ===== src/Crypto.antt =====
-- submodules/re-crypto/src/crypto: hashes, ciphers and what is built of them.
pub mod Sha256
pub mod Hmac
pub mod Kdf
pub mod Aes
pub mod KeyWrap
pub mod Cmac
pub mod Tests
