-- ===== src/Compat/Mss/Recomputed.antt =====
-- The checksums of a packet that was clamped.
use ipv_8_public_base_statio.Common.{
  ℕ, zero, suc, ◌+◌, ◌-◌, ◌*◌, ◌/◌, ◌%◌, ◌≤◌, ◌<◌, ◌≡◌, refl, ap, sym, ◌∙◌, List, [], ◌∷◌, length,
  take, drop, set, get_or, arith, length-set, inl, inr, length-take, le→ltb, take-all,
  get_or-set_other, ◌⊎◌,
}
use ipv_8_public_base_statio.Common.Bytes.{AreBytes}
use ipv_8_public_base_statio.Compat.Checksum.{
  checksum, ip_header_checksum, pseudo_v4, pseudo_v6, tcp_checksum_v4, tcp_checksum_v6,
}
use ipv_8_public_base_statio.Compat.Checksum.Laws.{
  AreBytes-set, AreBytes-take, put_word, take-set, written_verifies,
}
use ipv_8_public_base_statio.Compat.Checksum.Tcp.{
  Verifies, tcp_checksum_v4-Verifies, tcp_checksum_v6-Verifies,
}
use ipv_8_public_base_statio.Compat.Ip.{ip_version}
use ipv_8_public_base_statio.Compat.Mss.{put_be16, recompute_checksums}
use ipv_8_public_base_statio.Compat.Mss.Laws.{header_word, length-put_be16, recompute_ip_lem}

drop-set : (n i v : ℕ) (p : List ℕ) → drop n (set p (n + i) v) ≡ set (drop n p) i v
drop-set zero i v p = ap (λ (k : ℕ). set p k v) {x = 0 + i} {y = i} (omega arith)
drop-set (suc n) i v [] = refl
drop-set (suc n) i v (x ∷ r) =
    ap (λ (k : ℕ). drop (suc n) (set (x ∷ r) k v)) {x = suc n + i} {y = suc (n + i)} (omega arith)
    ∙ drop-set n i v r

-- A write behind what is looked at.
take_kept : (n i v : ℕ) (p : List ℕ) → n ≤ i → take n (set p i v) ≡ take n p
take_kept zero i v p h = refl
take_kept (suc n) i v [] h = refl
take_kept (suc n) zero v (x ∷ r) h = absurd (omega arith)
take_kept (suc n) (suc i) v (x ∷ r) h = ap (λ (t : List ℕ). x ∷ t) (take_kept n i v r (omega arith))

window_kept :
    (n m i v : ℕ) (p : List ℕ) → n + m ≤ i → take m (drop n (set p i v)) ≡ take m (drop n p)
window_kept n m i v p h =
    ap (λ (k : ℕ). take m (drop n (set p k v))) {x = i} {y = n + (i - n)} (omega arith)
    ∙ (ap (take m) (drop-set n (i - n) v p) ∙ take_kept m (i - n) v (drop n p) (omega arith))

-- A word that is written at or behind byte 36 is not in the pseudo-header.
module _ (p : List ℕ) (at c : ℕ) (far : 36 ≤ at) where
  abbrev q : List ℕ
  q = put_be16 p at c

  pseudo_v4_kept : (l : ℕ) → pseudo_v4 q l ≡ pseudo_v4 p l
  pseudo_v4_kept l =
      rw
        (
          length-put_be16 p at c,
          window_kept 12 8 (at + 1) (c % 256) (set p at (c / 256 % 256)) (omega arith),
          window_kept 12 8 at (c / 256 % 256) p (omega arith),
          get_or-set_other (set p at (c / 256 % 256)) (at + 1) 9 (c % 256) 0
              (λ e. omega (arith, e)),
          get_or-set_other p at 9 (c / 256 % 256) 0 (λ e. omega (arith, e)),
        )
        refl

  pseudo_v6_kept : (l proto : ℕ) → 40 ≤ at → pseudo_v6 q l proto ≡ pseudo_v6 p l proto
  pseudo_v6_kept l proto further =
      rw
        (
          length-put_be16 p at c,
          window_kept 8 32 (at + 1) (c % 256) (set p at (c / 256 % 256)) (omega arith),
          window_kept 8 32 at (c / 256 % 256) p (omega arith),
        )
        refl

drop-put_be16 : (p : List ℕ) (l k c : ℕ) → drop l (put_be16 p (l + k) c) ≡ put_word (drop l p) k c
drop-put_be16 p l k c =
    ap (λ (i : ℕ). drop l (set (set p (l + k) (c / 256 % 256)) i (c % 256))) {x = l + k + 1}
      {y = l + suc k} (omega arith)
    ∙ (drop-set l (suc k) (c % 256) (set p (l + k) (c / 256 % 256))
        ∙ ap (λ (t : List ℕ). set t (suc k) (c % 256)) (drop-set l k (c / 256 % 256) p))

AreBytes-put_be16 : (p : List ℕ) (at c : ℕ) → AreBytes p → AreBytes (put_be16 p at c)
AreBytes-put_be16 p at c all =
    AreBytes-set (set p at (c / 256 % 256)) (at + 1) (c % 256) (omega arith)
      (AreBytes-set p at (c / 256 % 256) (omega arith) all)

header_word-checksum :
    (h : List ℕ)
    → 20 ≤ length h
    → get_or h 0 0 % 16 * 4 ≡ length h
    → (ip_header_checksum h).0 ≡ checksum (set (set h 10 0) 11 0)
unfolding ip_header_checksum
header_word-checksum h least ihl =
    rw (ihl, le→ltb (length h) 20 least, le→ltb (length h) (length h) (omega arith))
      (ap checksum (
        take-all (length h) (set (set h 10 0) 11 0)
          (omega (arith, length-set (set h 10 0) 11 0, length-set h 10 0))))

first_of-take : (l : ℕ) (p : List ℕ) → 0 < l → get_or (take l p) 0 0 ≡ get_or p 0 0
first_of-take zero p h = absurd (omega arith)
first_of-take (suc l) [] h = refl
first_of-take (suc l) (x ∷ r) h = refl

-- The header with its sum verifies.
header_verifies :
    (p : List ℕ) (l c : ℕ)
    → AreBytes p
    → 20 ≤ l
    → l ≤ length p
    → l ≤ 65535
    → get_or p 0 0 % 16 * 4 ≡ l
    → checksum (take l (put_be16 (put_be16 p 10 (header_word p l)) (l + 16) c)) ≡ 0
header_verifies p l c all least fits small ihl =
    let h : List ℕ = take l p in
    let w : ℕ = header_word p l in
    let len : length h ≡ l = length-take l p ∙ omega arith in
    let r : List ℕ = put_be16 p 10 w in
    rw
      (
        take_kept l (l + 16 + 1) (c % 256) (set r (l + 16) (c / 256 % 256)) (omega arith),
        take_kept l (l + 16) (c / 256 % 256) r (omega arith),
        take-set l 11 (w % 256) (set p 10 (w / 256 % 256)),
        take-set l 10 (w / 256 % 256) p,
      )
      (written_verifies 10 h refl (omega (arith, len)) (omega (arith, len)) (AreBytes-take l p all)
        w
        (header_word-checksum h (omega (arith, len))
          (ap (λ (b : ℕ). b % 16 * 4) (first_of-take l p (omega arith)) ∙ (ihl ∙ sym len))))

by_version :
    (p : List ℕ) (l : ℕ)
    → AreBytes p
    → 20 ≤ l
    → l + 20 ≤ length p
    → length p ≤ 65535
    → let q = recompute_checksums p l in
      (ip_version p ≡ 4
        → Verifies (pseudo_v4 q l) (drop l q)
          × (get_or p 0 0 % 16 * 4 ≡ l → checksum (take l q) ≡ 0))
      × (ip_version p ≡ 6 → 40 ≤ l → Verifies (pseudo_v6 q l 6) (drop l q))
unfolding recompute_checksums
by_version p l all least holds small = (
  λ v4.
      let r : List ℕ = put_be16 p 10 (header_word p l) in
      let c : ℕ = tcp_checksum_v4 r l in
      rw
        (
          v4,
          recompute_ip_lem p l least (omega arith),
          pseudo_v4_kept r (l + 16) c (omega arith) l,
          drop-put_be16 r l 16 c,
        )
        (
          tcp_checksum_v4-Verifies r l (AreBytes-put_be16 p 10 (header_word p l) all)
              (omega (arith, length-put_be16 p 10 (header_word p l)))
              (omega (arith, length-put_be16 p 10 (header_word p l))),
          λ ihl. header_verifies p l c all least (omega arith) (omega arith) ihl,
        ),
  λ v6 further.
      let c : ℕ = tcp_checksum_v6 p l in
      rw (v6, pseudo_v6_kept p (l + 16) c (omega arith) l 6 (omega arith), drop-put_be16 p l 16 c)
        (tcp_checksum_v6-Verifies p l all holds small),
)

-- A header that ends at `l`: by the IHL of IPv4, or behind the 40 bytes of IPv6.
abbrev pub EndsAt : List ℕ → ℕ → Type 0
EndsAt p l = ((ip_version p ≡ 4) × (get_or p 0 0 % 16 * 4 ≡ l)) ⊎ ((ip_version p ≡ 6) × (40 ≤ l))

-- What the receiver sums of a packet that came in as `p`: the segment under the pseudo-header of
-- its version, and over IPv4 the header.
abbrev pub SumsVerify : List ℕ → ℕ → List ℕ → Type 0
SumsVerify p l q =
    ((ip_version p ≡ 4) × (Verifies (pseudo_v4 q l) (drop l q) × (checksum (take l q) ≡ 0)))
    ⊎ ((ip_version p ≡ 6) × Verifies (pseudo_v6 q l 6) (drop l q))

-- A packet of bytes, of at most 65535 of them, whose header ends at an `l` of at least 20 (by the
-- IHL over IPv4; 40 or more over IPv6) with a TCP header behind it, verifies once its checksums are
-- recomputed: the segment under its pseudo-header, and over IPv4 the header too.
pub recompute_checksums-Verifies :
    (p : List ℕ) (l : ℕ)
    → AreBytes p
    → 20 ≤ l
    → l + 20 ≤ length p
    → length p ≤ 65535
    → EndsAt p l
    → SumsVerify p l (recompute_checksums p l)
recompute_checksums-Verifies p l all least holds small (inl (v4, ihl)) =
    let (segment, header) = (by_version p l all least holds small).0 v4 in
    inl (v4, (segment, header ihl))
recompute_checksums-Verifies p l all least holds small (inr (v6, further)) =
    inr (v6, (by_version p l all least holds small).1 v6 further)
