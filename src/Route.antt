-- ===== src/Route.antt =====
-- The routing layer: the headers of packets on the wire, what is done with a packet that comes in
-- or that is sent on (kernel/net/decnet/dn_route.c, dn_neigh.c).
pub mod Header
pub mod Receive
pub mod Forward
pub mod Source
pub mod Fib
pub mod Table
pub mod Circuit
mod Tests
