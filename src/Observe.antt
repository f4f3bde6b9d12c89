-- ===== src/Observe.antt =====
-- The observation crate: frames, windows, reports, round trips, policies and the node
-- (src/core/ipv8-observe/src).
pub mod Frame
pub mod Window
pub mod Report
pub mod Rtt
pub mod Policy
pub mod Congestion
pub mod Node
