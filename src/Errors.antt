-- ===== src/Errors.antt =====
-- The error interface: src/component.c.
pub mod Info
pub mod Drain
pub mod Contract
pub mod Loop
