-- ===== src/Libdnet.antt =====
-- The user-space library libdnet (dnprogs/libdnet): addresses of nodes as text.
pub mod Address
mod Tests
