-- ===== src/Compat/Ttl/Laws.antt =====
-- What counting down the TTL leaves of an IPv4 packet.
use ipv_8_public_base_statio.Common.{
  ℕ, zero, suc, ◌-◌, ◌*◌, ◌/◌, ◌%◌, ◌≤◌, ◌<◌, ◌≡◌, ◌≢◌, refl, ap, sym, subst, ◌∙◌, List, [], ◌∷◌,
  length, take, set, get_or, get_elem?, arith, length-set, Bool, ltb, le→ltb, ==_ne, length-take,
  get_elem?-set_other,
}
use ipv_8_public_base_statio.Common.Bytes.{AreBytes}
use ipv_8_public_base_statio.Compat.Checksum.{checksum, ip_header_checksum}
use ipv_8_public_base_statio.Compat.Checksum.Laws.{
  AreBytes-set, AreBytes-take, get_or-IsByte, set-set, take-set, written_verifies,
}
use ipv_8_public_base_statio.Compat.Ip.{ip_version, ipv4_ihl, ipv4_ttl, set_ipv4_ttl}
use ipv_8_public_base_statio.Compat.Ttl.{decrement_ipv4, decrement_ttl, write_checksum}

-- A header length that `ipv4_ihl` finds.
abbrev IsIhl : List ℕ → Type 0
IsIhl p = (20 ≤ get_or p 0 0 % 16 * 4) × (get_or p 0 0 % 16 * 4 ≤ length p)

ihl_found :
    (p : List ℕ)
    → ipv4_ihl p ≢ 0
    → (ip_version p ≡ 4)
      × ((ipv4_ihl p ≡ get_or p 0 0 % 16 * 4) × ((20 ≤ ipv4_ihl p) × (ipv4_ihl p ≤ length p)))
unfolding ipv4_ihl
ihl_found p h = ground arith

-- The header with the TTL `t` and without its checksum, and its checksum.
abbrev cleared : List ℕ → ℕ → List ℕ
cleared p t = set (set (set p 8 t) 10 0) 11 0

abbrev header_sum : List ℕ → ℕ → ℕ
header_sum p t = checksum (take (get_or p 0 0 % 16 * 4) (cleared p t))

first_kept : (p : List ℕ) (t : ℕ) → get_or (set p 8 t) 0 0 ≡ get_or p 0 0
first_kept [] t = refl
first_kept (x ∷ r) t = refl

header_checksum :
    (p : List ℕ) (t : ℕ)
    → 20 ≤ length p
    → get_or p 0 0 % 16 * 4 ≤ length p
    → ip_header_checksum (set p 8 t) ≡ (header_sum p t, cleared p t)
unfolding ip_header_checksum
header_checksum p t h k =
    rw
      (
        first_kept p t,
        length-set p 8 t,
        le→ltb (length p) 20 h,
        le→ltb (length p) (get_or p 0 0 % 16 * 4) k,
      )
      refl

-- The packet that is left.
abbrev counted_down : List ℕ → ℕ → List ℕ
counted_down p t = set (set (set p 8 t) 10 (header_sum p t / 256 % 256)) 11 (header_sum p t % 256)

written :
    (p : List ℕ) (t : ℕ)
    → 20 ≤ length p
    → write_checksum (header_sum p t, cleared p t) ≡ counted_down p t
unfolding write_checksum
written p t h =
    rw
      (
        length-set (set (set p 8 t) 10 0) 11 0,
        length-set (set p 8 t) 10 0,
        length-set p 8 t,
        le→ltb (length p) 12 (omega arith),
      )
      (set-set (set p 8 t) 10 0 0 (header_sum p t / 256 % 256) (header_sum p t % 256))

decrement_ttl_eq :
    (p : List ℕ)
    → ip_version p ≡ 4
    → 20 ≤ length p
    → get_or p 0 0 % 16 * 4 ≤ length p
    → 0 < ipv4_ttl p
    → decrement_ttl p ≡ (ltb 0 (ipv4_ttl p - 1), counted_down p (ipv4_ttl p - 1))
unfolding decrement_ttl decrement_ipv4 set_ipv4_ttl
decrement_ttl_eq p v h k pos =
    rw
      (
        v,
        le→ltb (length p) 20 h,
        ==_ne (ipv4_ttl p) 0 (λ e. omega (arith, e)),
        le→ltb (length p) 9 (omega arith),
        header_checksum p (ipv4_ttl p - 1) h k,
        written p (ipv4_ttl p - 1) h,
      )
      refl

ttl-lt : (p : List ℕ) → AreBytes p → 20 ≤ length p → ipv4_ttl p < 256
unfolding ipv4_ttl
ttl-lt p all h = rw (le→ltb (length p) 9 (omega arith)) (get_or-IsByte p 8 all)

counted_down-checksum :
    (p : List ℕ) (t : ℕ)
    → AreBytes p
    → t < 256
    → IsIhl p
    → checksum (take (get_or p 0 0 % 16 * 4) (counted_down p t)) ≡ 0
counted_down-checksum p t all small (least, fits) =
    let n : ℕ = get_or p 0 0 % 16 * 4 in
    let header : List ℕ = take n (set p 8 t) in
    let len : length header ≡ n =
      length-take n (set p 8 t) ∙ rw (length-set p 8 t) (omega (arith, fits)) in
    let s : ℕ = header_sum p t in
    rw
      (
        take-set n 11 (s % 256) (set (set p 8 t) 10 (s / 256 % 256)),
        take-set n 10 (s / 256 % 256) (set p 8 t),
      )
      (written_verifies 10 header refl (omega (arith, len, least)) (omega (arith, len))
        (AreBytes-take n (set p 8 t) (AreBytes-set p 8 t small all)) s
        (ap checksum (
          take-set n 11 0 (set (set p 8 t) 10 0)
          ∙ ap (λ (q : List ℕ). set q 11 0) (take-set n 10 0 (set p 8 t)))))

counted_down-ttl : (p : List ℕ) (t : ℕ) → 20 ≤ length p → ipv4_ttl (counted_down p t) ≡ t
unfolding ipv4_ttl
counted_down-ttl p t h =
    let s : ℕ = header_sum p t in
    rw
      (
        length-set (set (set p 8 t) 10 (s / 256 % 256)) 11 (s % 256),
        length-set (set p 8 t) 10 (s / 256 % 256),
        length-set p 8 t,
        le→ltb (length p) 9 (omega arith),
      )
      (read_eighth p (s / 256 % 256) (s % 256) h)
  where
    read_eighth :
        (q : List ℕ) (a b : ℕ) → 20 ≤ length q → get_or (set (set (set q 8 t) 10 a) 11 b) 8 0 ≡ t
    read_eighth q a b k = eighth q 8 a b (omega (arith, k))
      where
        eighth :
            (q : List ℕ) (i a b : ℕ)
            → i < length q
            → get_or (set (set (set q i t) (suc (suc i)) a) (suc (suc (suc i))) b) i 0 ≡ t
        eighth [] i a b k = omega arith
        eighth (x ∷ r) zero a b k = refl
        eighth (x ∷ r) (suc i) a b k = eighth r i a b (omega arith)

-- What `decrement_ttl` promises of a packet: the TTL is one less, the header verifies, all other
-- bytes are as before, and the answer is whether hops are left.
abbrev pub IsCountedDown : List ℕ → Bool × List ℕ → Type 0
IsCountedDown p (alive, q) =
    (alive ≡ ltb 1 (ipv4_ttl p))
    × ((suc (ipv4_ttl q) ≡ ipv4_ttl p)
        × ((checksum (take (ipv4_ihl p) q) ≡ 0)
            × ((i : ℕ) → i ≢ 8 → i ≢ 10 → i ≢ 11 → get_elem? q i ≡ get_elem? p i)))

counted_down-kept :
    (p : List ℕ) (t i : ℕ)
    → i ≢ 8
    → i ≢ 10
    → i ≢ 11
    → get_elem? (counted_down p t) i ≡ get_elem? p i
counted_down-kept p t i e f g =
    get_elem?-set_other (set (set p 8 t) 10 (header_sum p t / 256 % 256)) 11 i
      (header_sum p t % 256) (λ h. g (sym h))
    ∙ (get_elem?-set_other (set p 8 t) 10 i (header_sum p t / 256 % 256) (λ h. f (sym h))
        ∙ get_elem?-set_other p 8 i t (λ h. e (sym h)))

-- Counting down the TTL of an IPv4 packet of bytes, whose header length `ipv4_ihl` finds and whose
-- TTL is not 0, takes one off the TTL and writes a checksum with which the whole header verifies.
-- The bytes but 8, 10 and 11 stay, and the answer is whether the TTL was above 1.
pub decrement_ttl-IsCountedDown :
    (p : List ℕ) → AreBytes p → ipv4_ihl p ≢ 0 → 0 < ipv4_ttl p → IsCountedDown p (decrement_ttl p)
decrement_ttl-IsCountedDown p all found pos =
    let (v, (e, (least, fits))) = ihl_found p found in
    let t : ℕ = ipv4_ttl p - 1 in
    subst (IsCountedDown p)
      (sym (decrement_ttl_eq p v (omega (arith, e, least, fits)) (omega (arith, e, fits)) pos))
      (
        ground arith,
        (
          omega (arith, counted_down-ttl p t (omega (arith, e, least, fits))),
          (
            rw e (
                counted_down-checksum p t all
                  (omega (arith, ttl-lt p all (omega (arith, e, least, fits))))
                  (omega (arith, e, least), omega (arith, e, fits))),
            counted_down-kept p t,
          ),
        ),
      )
