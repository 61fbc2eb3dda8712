-- ===== src/Nsp.antt =====
-- The Network Services Protocol: kernel/net/decnet/dn_nsp_in.c, dn_nsp_out.c and dn_nsp.h.
pub mod Seq
pub mod Socket
pub mod Timer
pub mod Send
pub mod Header
pub mod Queue
pub mod Ack
pub mod Message
pub mod Receive
pub mod Frame
pub mod Samples
mod Tests
