-- ===== src/Routing.antt =====
-- The routes of packets over several hops (src/core/ipv8-routing/src).
pub mod Static
