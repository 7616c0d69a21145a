-- ===== src/Cipher.antt =====
-- The cipher interface: src/cipher.c.
pub mod Algs
pub mod Evp
pub mod OneShot
pub mod Modes
pub mod Contract
pub mod Aead
pub mod Stream
