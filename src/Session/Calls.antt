-- ===== src/Session/Calls.antt =====
-- The system calls on a socket that set up and take down links, of kernel/net/decnet/af_decnet.c.
-- A call that sleeps is modelled up to the sleep and from each waking on.
pub mod Open
pub mod Connect
pub mod Close
pub mod Accept
mod Tests
