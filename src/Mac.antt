-- ===== src/Mac.antt =====
-- The mac interface: src/mac.c.
pub mod Params
pub mod Context
pub mod OneShot
pub mod Bounds
pub mod Contract
