-- ===== src/Aes.antt =====
-- src/aes_simd.c: AES block encryption and decryption on wasm SIMD vectors.
pub mod Vector
pub mod Tables
pub mod Round
pub mod Block
pub mod Field
pub mod Linear
pub mod Columns
pub mod Sbox
pub mod Inverse
pub mod Wrap
