-- ===== src/Digest.antt =====
-- The digest interface: src/component.c and src/include/algs.h.
pub mod Algs
pub mod Evp
pub mod OneShot
pub mod Context
pub mod Streaming
pub mod Agree
pub mod Contract
