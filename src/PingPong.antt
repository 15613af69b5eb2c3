-- ===== src/PingPong.antt =====
-- The ping-pong between an initiator and a peer.
pub mod Steps
pub mod Lockstep
pub mod Thread
pub mod Stations
pub mod Holding
pub mod Cleanup
pub mod Examples
