-- ===== src/Tests.antt =====
-- The properties at concrete inputs.
mod Codec
mod Qos
mod Observe
mod Fec
mod Compat
mod Edge
mod Outbound
mod Fallback
mod Routing
mod Reassembly
mod Tunnel
