-- ===== src/Codec.antt =====
-- The packet codec (src/core/ipv8-codec/src): addresses, header, encoder, decoder, versions.
pub mod Address
pub mod Header
pub mod Version
pub mod Encode
pub mod Decode
pub mod RoundTrip
pub mod Fragment
pub mod Reassembly
