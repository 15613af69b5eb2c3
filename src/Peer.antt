-- ===== src/Peer.antt =====
-- The peer: peer/peer_main.c, with lib/print_node_id.c.
pub mod World
pub mod Tables
pub mod Orders
pub mod Registry
pub mod Entries
pub mod Create
pub mod Destroy
pub mod Faults
pub mod Shortage
pub mod Underflow
pub mod Teardown
pub mod Callback
pub mod Serving
pub mod Unchecked
pub mod Examples
pub mod FailureExamples
pub mod Boot
