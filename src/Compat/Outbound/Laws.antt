-- ===== src/Compat/Outbound/Laws.antt =====
-- What becomes of a packet on its way out (src/core/ipv8-compat/src/lib.rs).
use ipv_8_public_base_statio.Common.{ℕ, ◌≡◌, List, Option, some, not, ◌==◌, ◌&&◌, Bool}
use ipv_8_public_base_statio.Common.Bytes.{AreBytes}
use ipv_8_public_base_statio.Compat.Ip.{ip_version}
use ipv_8_public_base_statio.Compat.Outbound.{Outcome, outbound_hop}
use ipv_8_public_base_statio.Compat.Ttl.{decrement_ttl}
use ipv_8_public_base_statio.Compat.Outbound.Errors.{IsAddress}

module _ (p : List ℕ) (mtu : ℕ) (our_v4 : List ℕ) (our_v6 : Option (List ℕ)) (all : AreBytes p)
    (is_v4 : IsAddress 4 our_v4) (is_v6 : (a : List ℕ) → our_v6 ≡ some a → IsAddress 16 a) where
  abbrev q : List ℕ
  q = (decrement_ttl p).1

  abbrev not_ip : Bool
  not_ip = not (ip_version p == 4) && not (ip_version p == 6)

  abbrev hop : Option ℕ → Outcome × List ℕ
  hop target = outbound_hop (ip_version p) mtu target our_v4 our_v6 (decrement_ttl p)
