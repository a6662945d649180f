-- ===== src/Network.antt =====
-- The network module, core_daemon/network.c: packets and their fields, the handlers of TCP and UDP
-- packets, the loop over the packets of one read, and the pool of client contexts.
pub mod Field
pub mod Reply
pub mod Request
pub mod Slots
pub mod RoundTrip
pub mod Tcp
pub mod Udp
pub mod Pool
pub mod Session
pub mod Limits
mod Tests
