-- ===== src/Session.antt =====
-- How a packet finds its socket: user names, connect initiate messages, the table of sockets and
-- the receive routine (kernel/net/decnet/af_decnet.c, dn_nsp_in.c and dn_nsp_out.c).
pub mod Username
pub mod Table
pub mod Conninit
pub mod Listener
pub mod Rx
pub mod Timer
pub mod Calls
pub mod Stream
mod Tests
