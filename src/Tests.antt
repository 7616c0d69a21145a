-- ===== src/Tests.antt =====
-- Runs of the models at concrete inputs, and the theorems applied at them.
mod World
mod Aes
mod Digest
mod Kdf
mod Cipher
mod Mac
mod Bignum
mod Random
mod Tables
mod Errors
mod Tls
