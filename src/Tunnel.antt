-- ===== src/Tunnel.antt =====
-- The tunnel (src/core/ipv8-tunnel/src): the replay window and the keys.
pub mod Window
pub mod Frame
pub mod Cipher
pub mod Keys
pub mod Open
pub mod Encapsulate
