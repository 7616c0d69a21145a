-- ===== src/Kdf.antt =====
-- The kdf interface: src/kdf.c.
pub mod Evp
pub mod Derive
pub mod Label
pub mod Exports
pub mod Expand
