-- ===== src/Compat/Ip/Laws.antt =====
-- Where the transport header is found (src/core/ipv8-compat/src/ip.rs).
use ipv_8_public_base_statio.Common.{
  ℕ, zero, suc, ◌+◌, ◌*◌, ◌%◌, ◌≤◌, ◌<◌, ◌≡◌, ◌⊎◌, inl, inr, refl, ap, sym, subst, List, [], ◌∷◌,
  true, false, Bool-cases, Option, Option-cases, none, some, contains, length, get_or, arith, ltb,
  ltb→lt, ◌==◌, ==_iff, if◌then◌else◌,
}
use ipv_8_public_base_statio.Compat.Ip.{
  L4Step, after_step, behind, halt, ip_version, ipv4_ihl, ipv4_proto, ipv6_next_header, l4_loop,
  l4_offset, l4_step, unknown,
}

-- The size of an extension header of the given type with the given length byte: Hop-by-Hop (0),
-- Routing (43) and Destination Options (60) in units of eight bytes, Fragment (44) of eight bytes,
-- Authentication (51) in units of four; none for another type.
abbrev pub ext_size : ℕ → ℕ → Option ℕ
ext_size next len =
    if contains (0 ∷ 43 ∷ 60 ∷ []) next
    then some ((len + 1) * 8)
    else if next == 44
    then some 8
    else if next == 51
    then some ((len + 2) * 4)
    else none

-- The chain of extension headers from `off` on, of which the first has the type `next`, with what is
-- found at its end: a header that is no extension header, or the one behind as many as are allowed;
-- or (0, 0), where an extension header does not end within the buffer.
pub data Chain (p : List ℕ) (found : ℕ × ℕ) : ℕ → ℕ → ℕ → Type 0 where
  arrived :
      (n next off : ℕ)
      → (n ≡ 0) ⊎ (ext_size next (get_or p (off + 1) 0) ≡ none)
      → off ≤ length p
      → found ≡ (next, off)
      → Chain p found n next off
  cut :
      (n next off size : ℕ)
      → ext_size next (get_or p (off + 1) 0) ≡ some size
      → length p < off + size
      → found ≡ (0, 0)
      → Chain p found (suc n) next off
  passed :
      (n next off size : ℕ)
      → ext_size next (get_or p (off + 1) 0) ≡ some size
      → off + size ≤ length p
      → Chain p found n (get_or p off 0) (off + size)
      → Chain p found (suc n) next off

abbrev pub ihl_bytes : List ℕ → ℕ
ihl_bytes p = get_or p 0 0 % 16 * 4

abbrev pub HasHeaderV4 : List ℕ → Type 0
HasHeaderV4 p = (ip_version p ≡ 4) × ((20 ≤ ihl_bytes p) × (ihl_bytes p ≤ length p))

abbrev pub HasHeaderV6 : List ℕ → Type 0
HasHeaderV6 p = (ip_version p ≡ 6) × (40 ≤ length p)

-- What is found in a buffer: behind an IPv4 header, of which the IHL gives the length, what its
-- protocol field names; behind an IPv6 header what its chain of up to eight headers leads to; and
-- (0, 0) without a whole header.
abbrev pub IsL4 : List ℕ → ℕ × ℕ → Type 0
IsL4 p found =
    (HasHeaderV4 p × (found ≡ (get_or p 9 0, ihl_bytes p)))
    ⊎ ((HasHeaderV6 p × Chain p found 8 (get_or p 6 0) 40)
        ⊎ ((HasHeaderV4 p → ⊥) × ((HasHeaderV6 p → ⊥) × (found ≡ (0, 0)))))

ext_size-ge : (next len size : ℕ) → ext_size next len ≡ some size → 8 ≤ size
ext_size-ge next len size e = ground arith

l4_step-halt :
    (p : List ℕ) (next off : ℕ)
    → ext_size next (get_or p (off + 1) 0) ≡ none
    → l4_step p next off ≡ halt
unfolding l4_step
l4_step-halt p next off e = ground arith

l4_step-cut :
    (p : List ℕ) (next off size : ℕ)
    → length p < 18446744073709551615
    → ext_size next (get_or p (off + 1) 0) ≡ some size
    → length p < off + size
    → l4_step p next off ≡ unknown
unfolding l4_step
l4_step-cut p next off size small e over = ground arith

l4_step-pass :
    (p : List ℕ) (next off size : ℕ)
    → length p < 18446744073709551615
    → ext_size next (get_or p (off + 1) 0) ≡ some size
    → off + size ≤ length p
    → l4_step p next off ≡ behind (get_or p off 0) (off + size)
unfolding l4_step
l4_step-pass p next off size small e fits = ground arith

l4_loop-Chain :
    (passes : ℕ) (p : List ℕ) (next off : ℕ)
    → length p < 18446744073709551615
    → off ≤ length p
    → Chain p (l4_loop passes p next off) passes next off
unfolding l4_loop after_step
l4_loop-Chain zero p next off small inside = arrived 0 next off (inl refl) inside refl
l4_loop-Chain (suc passes) p next off small inside =
    elim (Option-cases (ext_size next (get_or p (off + 1) 0))) [
      | inl no_ext ↦
          arrived (suc passes) next off (inr no_ext) inside
            (ap run (l4_step-halt p next off no_ext))
      | inr (size, e) ↦ elim (Bool-cases (ltb (length p) (off + size))) [
        | inl over ↦
            let beyond : length p < off + size = ltb→lt (length p) (off + size) over in
            cut passes next off size e beyond (ap run (l4_step-cut p next off size small e beyond))
        | inr fits ↦
            let within : off + size ≤ length p = not_over (length p) (off + size) fits in
            passed passes next off size e within (
              subst (λ (r : ℕ × ℕ). Chain p r passes (get_or p off 0) (off + size))
                (sym (ap run (l4_step-pass p next off size small e within)))
                (l4_loop-Chain passes p (get_or p off 0) (off + size) small within))
      ]
    ]
  where
    run : L4Step → ℕ × ℕ
    run s = after_step s (next, off) (l4_loop passes p)

    not_over : (n m : ℕ) → ltb n m ≡ false → m ≤ n
    not_over n m e = ground arith

-- What the chain leads to lies behind its start.
pub Chain-ge :
    (p : List ℕ) (found : ℕ × ℕ) {n next off : ℕ}
    → Chain p found n next off
    → (found ≡ (0, 0)) ⊎ ((off ≤ found.1) × (found.1 ≤ length p))
Chain-ge p found (arrived n next off why inside e) =
    let at : found.1 ≡ off = ap (λ (x : ℕ × ℕ). x.1) e in
    inr (omega (arith, at), omega (arith, at, inside))
Chain-ge p found (cut n next off size e over none_left) = inl none_left
Chain-ge p found (passed n next off size e fits chain) = elim (Chain-ge p found chain) [
  | inl none_left ↦ inl none_left
  | inr (more, inside) ↦ inr (omega (arith, more), inside)
]

ipv4_whole :
    (p : List ℕ)
    → (ipv4_ihl p == 0) ≡ false
    → ip_version p ≡ 4
    → HasHeaderV4 p × (ipv4_ihl p ≡ ihl_bytes p)
unfolding ipv4_ihl
ipv4_whole p h v4 = ground arith

ipv4_broken : (p : List ℕ) → (ipv4_ihl p == 0) ≡ true → HasHeaderV4 p → ⊥
unfolding ipv4_ihl
ipv4_broken p h whole = ground arith

-- For every buffer whose length is below the greatest u64, `l4_offset` answers the protocol and the
-- offset behind a whole IPv4 header, or what the chain of up to eight extension headers behind a
-- whole IPv6 header leads to, which is (0, 0) if one of them does not end within the buffer; and
-- (0, 0) without a whole header.
pub l4_offset-IsL4 : (p : List ℕ) → length p < 18446744073709551615 → IsL4 p (l4_offset p)
unfolding l4_offset
l4_offset-IsL4 p small = elim (Bool-cases (ip_version p == 4)) [
  | inl v4 ↦
      let is_four : ip_version p ≡ 4 = (==_iff (ip_version p) 4).0 v4 in
      let not_six : HasHeaderV6 p → ⊥ = λ (six, _). omega (arith, is_four, six) in
      elim (Bool-cases (ipv4_ihl p == 0)) [
        | inl broken ↦ rw (v4, broken) (inr (inr (ipv4_broken p broken, (not_six, refl))))
        | inr whole ↦
            let (has, len) = ipv4_whole p whole is_four in
            rw (v4, whole, len, proto_at has) (inl (has, refl))
      ]
  | inr not_v4 ↦
      let not_four : HasHeaderV4 p → ⊥ = λ (four, _). ground (arith, four) in
      elim (Bool-cases (ip_version p == 6)) [
        | inl v6 ↦
            let is_six : ip_version p ≡ 6 = (==_iff (ip_version p) 6).0 v6 in
            elim (Bool-cases (ltb (length p) 40)) [
              | inl short ↦
                  rw (not_v4, v6, short)
                    (inr (
                      inr (
                        not_four,
                        ((λ (_, long). omega (arith, ltb→lt (length p) 40 short, long)), refl),
                      )))
              | inr long ↦
                  let least : 40 ≤ length p = not_short long in
                  rw (not_v4, v6, long, next_at least)
                    (inr (inl ((is_six, least), l4_loop-Chain 8 p (get_or p 6 0) 40 small least)))
            ]
        | inr not_v6 ↦
            rw (not_v4, not_v6) (inr (inr (not_four, ((λ (six, _). ground (arith, six)), refl))))
      ]
]
  where
    not_short : ltb (length p) 40 ≡ false → 40 ≤ length p
    not_short e = ground arith

    proto_at : HasHeaderV4 p → ipv4_proto p ≡ get_or p 9 0
    proto_at (_, (least, fits)) = unfold ipv4_proto in ground arith

    next_at : 40 ≤ length p → ipv6_next_header p ≡ get_or p 6 0
    next_at least = unfold ipv6_next_header in ground arith
