-- ===== src/Ipc.antt =====
-- plugin/ctl/ipc: packets between the daemon and its control clients, and the two ends of a
-- connection.
pub mod Method
pub mod Packet
pub mod Channel
pub mod Server
pub mod Client
pub mod Peer
mod Tests
