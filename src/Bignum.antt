-- ===== src/Bignum.antt =====
-- The bignum interface: src/bignum.c.
pub mod Bn
pub mod Build
pub mod Output
pub mod Contract
pub mod Word
pub mod Arith
