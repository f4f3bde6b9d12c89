-- ===== src/Compat/Ttl/Kept.antt =====
-- What counting down the TTL keeps of every packet.
use ipv_8_public_base_statio.Common.{
  ℕ, suc, ◌-◌, ◌/◌, ◌%◌, ◌<◌, ◌≡◌, refl, ◌∙◌, List, [], ◌∷◌, length, set, get_or, arith, length-set,
  ltb, ◌==◌, ◌||◌, Bool-cases, inl, inr,
}
use ipv_8_public_base_statio.Common.Bytes.{AreBytes}
use ipv_8_public_base_statio.Compat.Checksum.{ip_header_checksum}
use ipv_8_public_base_statio.Compat.Checksum.Laws.{AreBytes-set, get_or-IsByte, header_left}
use ipv_8_public_base_statio.Compat.Ip.{
  ip_version, ipv4_ttl, ipv6_hop_limit, set_ipv4_ttl, set_ipv6_hop_limit,
}
use ipv_8_public_base_statio.Compat.Ip.Agrees.{ip_version-first}
use ipv_8_public_base_statio.Compat.Ttl.{
  decrement_ipv4, decrement_ipv6, decrement_ttl, write_checksum,
}

-- A buffer of bytes, as long as before and of the same IP version.
pub record IsKept (p q : List ℕ) : Type 0 where
  pub bytes : AreBytes q
  pub len : length q ≡ length p
  pub first : get_or q 0 0 ≡ get_or p 0 0

pub version-IsKept : (p q : List ℕ) → IsKept p q → ip_version q ≡ ip_version p
version-IsKept p q k = rw (ip_version-first p, ip_version-first q, k.first) refl

set-IsKept : (p q : List ℕ) (i v : ℕ) → v < 256 → IsKept p q → IsKept p (set q (suc i) v)
set-IsKept p q i v h k = record {
  bytes = AreBytes-set q (suc i) v h k.bytes;
  len = length-set q (suc i) v ∙ k.len;
  first = first_kept q ∙ k.first;
}
  where
    first_kept : (q : List ℕ) → get_or (set q (suc i) v) 0 0 ≡ get_or q 0 0
    first_kept [] = refl
    first_kept (x ∷ r) = refl

set_ipv4_ttl-IsKept : (p : List ℕ) (v : ℕ) → v < 256 → IsKept p p → IsKept p (set_ipv4_ttl p v)
unfolding set_ipv4_ttl
set_ipv4_ttl-IsKept p v h k = elim (Bool-cases (ltb (length p) 9)) [
  | inl short ↦ rw short k
  | inr long ↦ rw long (set-IsKept p p 7 v h k)
]

set_ipv6_hop_limit-IsKept :
    (p : List ℕ) (v : ℕ) → v < 256 → IsKept p p → IsKept p (set_ipv6_hop_limit p v)
unfolding set_ipv6_hop_limit
set_ipv6_hop_limit-IsKept p v h k = elim (Bool-cases (ltb (length p) 8)) [
  | inl short ↦ rw short k
  | inr long ↦ rw long (set-IsKept p p 6 v h k)
]

write_checksum-IsKept : (p : List ℕ) (x : ℕ × List ℕ) → IsKept p x.1 → IsKept p (write_checksum x)
unfolding write_checksum
write_checksum-IsKept p (cs, q) k = elim (Bool-cases (ltb (length q) 12)) [
  | inl short ↦ rw short k
  | inr long ↦ rw long (
      set-IsKept p (set q 10 (cs / 256 % 256)) 10 (cs % 256) (omega arith)
        (set-IsKept p q 9 (cs / 256 % 256) (omega arith) k))
]

header-IsKept : (p q : List ℕ) → IsKept p q → IsKept p (ip_header_checksum q).1
header-IsKept p q k = elim (header_left q) [
  | inl same ↦ rw same k
  | inr cleared ↦
      rw cleared (set-IsKept p (set q 10 0) 10 0 (omega arith) (set-IsKept p q 9 0 (omega arith) k))
]

ttl-lt : (p : List ℕ) → AreBytes p → ipv4_ttl p < 256
unfolding ipv4_ttl
ttl-lt p all = let b : get_or p 8 0 < 256 = get_or-IsByte p 8 all in ground arith

hop_limit-lt : (p : List ℕ) → AreBytes p → ipv6_hop_limit p < 256
unfolding ipv6_hop_limit
hop_limit-lt p all = let b : get_or p 7 0 < 256 = get_or-IsByte p 7 all in ground arith

decrement_ipv4-IsKept : (p : List ℕ) → AreBytes p → IsKept p (decrement_ipv4 p).1
unfolding decrement_ipv4
decrement_ipv4-IsKept p all =
    let k : IsKept p p = record { bytes = all; len = refl; first = refl } in
    elim (Bool-cases (ltb (length p) 20 || ipv4_ttl p == 0)) [
      | inl ends ↦ rw ends k
      | inr goes ↦ rw goes (
          write_checksum-IsKept p (ip_header_checksum (set_ipv4_ttl p (ipv4_ttl p - 1))) (
            header-IsKept p (set_ipv4_ttl p (ipv4_ttl p - 1))
              (set_ipv4_ttl-IsKept p (ipv4_ttl p - 1) (omega (arith, ttl-lt p all)) k)))
    ]

decrement_ipv6-IsKept : (p : List ℕ) → AreBytes p → IsKept p (decrement_ipv6 p).1
unfolding decrement_ipv6
decrement_ipv6-IsKept p all =
    let k : IsKept p p = record { bytes = all; len = refl; first = refl } in
    elim (Bool-cases (ltb (length p) 40 || ipv6_hop_limit p == 0)) [
      | inl ends ↦ rw ends k
      | inr goes ↦
          rw goes (
            set_ipv6_hop_limit-IsKept p (ipv6_hop_limit p - 1) (omega (arith, hop_limit-lt p all))
              k)
    ]

pub decrement_ttl-IsKept : (p : List ℕ) → AreBytes p → IsKept p (decrement_ttl p).1
unfolding decrement_ttl
decrement_ttl-IsKept p all = elim (Bool-cases (ip_version p == 4)) [
  | inl v4 ↦ rw v4 (decrement_ipv4-IsKept p all)
  | inr not_v4 ↦ elim (Bool-cases (ip_version p == 6)) [
    | inl v6 ↦ rw (not_v4, v6) (decrement_ipv6-IsKept p all)
    | inr neither ↦ rw (not_v4, neither) (record { bytes = all; len = refl; first = refl })
  ]
]
