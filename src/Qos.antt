-- ===== src/Qos.antt =====
-- The QoS engine (src/core/ipv8-qos/src): classifier and priority scheduler.
pub mod Classifier
pub mod Scheduler
