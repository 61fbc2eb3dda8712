-- ===== src/Fal2.antt =====
-- The file access listener fal (dnprogs/fal2): the DAP message layer of dap.c.
pub mod Receive
pub mod Get
pub mod Put
pub mod Pool
pub mod Build
pub mod Blocked
pub mod Extensible
mod Tests
