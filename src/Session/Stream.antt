-- ===== src/Session/Stream.antt =====
-- User data: sending and receiving on a link (`dn_sendmsg` and `dn_recvmsg` of
-- kernel/net/decnet/af_decnet.c).
pub mod Send
pub mod Receive
mod Tests
