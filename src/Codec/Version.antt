-- ===== src/Codec/Version.antt =====
-- Version negotiation (src/core/ipv8-codec/src/version.rs).
use ipv_8_public_base_statio.Common.{ℕ, ltb, if◌then◌else◌}
use ipv_8_public_base_statio.Codec.Header.{IPv8Header, protocol_version}

pub data Negotiation : Type 0 where
  full : Negotiation
  degrade : ℕ → Negotiation
  incompatible : ℕ → ℕ → Negotiation

unfoldable pub negotiate : IPv8Header → ℕ → Negotiation
negotiate hdr local_version =
    if ltb local_version hdr.min_compat_ver
    then incompatible hdr.min_compat_ver local_version
    else if ltb hdr.min_compat_ver local_version
    then degrade hdr.min_compat_ver
    else full

unfoldable pub negotiate_local : IPv8Header → Negotiation
unfolding negotiate
negotiate_local hdr = negotiate hdr protocol_version
