-- ===== src/Random.antt =====
-- The random interface: src/component.c.
pub mod Bytes
pub mod Contract
