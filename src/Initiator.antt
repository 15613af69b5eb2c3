-- ===== src/Initiator.antt =====
-- The initiator of initiator/: what it relies on, and its experiments.
pub mod Service
pub mod World
pub mod Host
pub mod Ends
pub mod Rules
pub mod Joining
pub mod Repeats
pub mod Segments
pub mod Transfers
pub mod Signals
pub mod Scaled
pub mod Main
pub mod Restoring
pub mod TransfersRestoring
pub mod SignalsRestoring
pub mod Undefined
pub mod Broadcast
pub mod BroadcastDma
pub mod BroadcastDmaEnds
pub mod Stages
pub mod Chosen
pub mod Whole
pub mod Arguments
pub mod System
pub mod DmaVec
pub mod Examples
pub mod RunExamples
pub mod SystemExamples
pub mod BroadcastExample
