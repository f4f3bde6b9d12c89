-- ===== src/Compat.antt =====
-- The IPv4 and IPv6 packets that enter and leave the network (src/core/ipv8-compat/src).
pub mod Checksum
pub mod Ip
pub mod Ttl
pub mod Icmp
pub mod Mss
pub mod Outbound
