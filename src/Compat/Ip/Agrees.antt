-- ===== src/Compat/Ip/Agrees.antt =====
-- Which bytes the transport offset depends on.
use ipv_8_public_base_statio.Common.{
  ℕ, zero, suc, ◌+◌, ◌/◌, ◌≤◌, ◌<◌, ◌≡◌, ◌≢◌, refl, ap, sym, ◌∙◌, List, [], ◌∷◌, Bool, true, false,
  length, get_or, arith, ltb, ◌==◌, if◌then◌else◌, ◌⊎◌, inl, inr,
}
use ipv_8_public_base_statio.Compat.Ip.Laws.{Chain-ge, l4_offset-IsL4}
use ipv_8_public_base_statio.Compat.Ip.{
  L4Step, after_step, behind, halt, ip_version, ipv4_ihl, ipv4_proto, ipv6_next_header, l4_loop,
  l4_offset, l4_step, unknown,
}

pub ip_version-first : (p : List ℕ) → ip_version p ≡ get_or p 0 0 / 16
unfolding ip_version
ip_version-first [] = refl
ip_version-first (x ∷ r) = refl

l4_step-behind :
    (p : List ℕ) (next off n to : ℕ)
    → off ≤ length p
    → length p < 18446744073709551615
    → l4_step p next off ≡ behind n to
    → (off + 2 ≤ to) × (to ≤ length p)
unfolding l4_step
l4_step-behind p next off n to inside small h = ground arith

l4_step-cases :
    (s : L4Step) → ((s ≡ halt) ⊎ (s ≡ unknown)) ⊎ ((n : ℕ) × ((to : ℕ) × (s ≡ behind n to)))
l4_step-cases halt = inl (inl refl)
l4_step-cases unknown = inl (inr refl)
l4_step-cases (behind n to) = inr (n, (to, refl))

-- A buffer of the same length that has the same bytes before `l`, but for 10 and 11.
abbrev pub IsLike : ℕ → List ℕ → List ℕ → Type 0
IsLike l p q =
    (length q ≡ length p) × ((i : ℕ) → i < l → i ≢ 10 → i ≢ 11 → get_or q i 0 ≡ get_or p i 0)

l4_loop-le :
    (passes : ℕ) (p : List ℕ) (next off l : ℕ)
    → off ≤ length p
    → length p < 18446744073709551615
    → l4_loop passes p next off ≡ (6, l)
    → off ≤ l
unfolding l4_loop after_step
l4_loop-le zero p next off l inside small e = omega (arith, ap (λ (x : ℕ × ℕ). x.1) e)
l4_loop-le (suc passes) p next off l inside small e = elim (l4_step-cases (l4_step p next off)) [
  | inl (inl halts) ↦ omega (
    arith,
    ap (λ (x : ℕ × ℕ). x.1)
        (sym (ap (λ (s : L4Step). after_step s (next, off) (l4_loop passes p)) halts) ∙ e),
  )
  | inl (inr gives_up) ↦ absurd (
      omega (
        arith,
        ap (λ (x : ℕ × ℕ). x.0)
            (sym (ap (λ (s : L4Step). after_step s (next, off) (l4_loop passes p)) gives_up) ∙ e),
      ))
  | inr (n, (to, goes)) ↦
      let (more, fits) = l4_step-behind p next off n to inside small goes in
      omega (
        arith,
        more,
        l4_loop-le passes p n to l fits small
            (sym (ap (λ (s : L4Step). after_step s (next, off) (l4_loop passes p)) goes) ∙ e),
      )
]

l4_step-agrees :
    (p q : List ℕ) (next off : ℕ)
    → length q ≡ length p
    → get_or q off 0 ≡ get_or p off 0
    → get_or q (off + 1) 0 ≡ get_or p (off + 1) 0
    → l4_step q next off ≡ l4_step p next off
unfolding l4_step
l4_step-agrees p q next off len first second = rw (len, first, second) refl

l4_step-tcp : (q : List ℕ) (next off : ℕ) → next ≡ 6 → l4_step q next off ≡ halt
unfolding l4_step
l4_step-tcp q next off e = rw e refl

abbrev run : List ℕ → ℕ → ℕ → ℕ → L4Step → ℕ × ℕ
run b next off passes s = after_step s (next, off) (l4_loop passes b)

l4_loop-agrees :
    (passes : ℕ) (p q : List ℕ) (next off l : ℕ)
    → 40 ≤ off
    → off ≤ length p
    → length p < 18446744073709551615
    → IsLike l p q
    → l4_loop passes p next off ≡ (6, l)
    → l4_loop passes q next off ≡ (6, l)
unfolding l4_loop
l4_loop-agrees zero p q next off l least inside small like e = e
l4_loop-agrees (suc passes) p q next off l least inside small (len, same) e =
    elim (l4_step-cases (l4_step p next off)) [
      | inl (inl halts) ↦
          let here : (next, off) ≡ (6, l) =
            halted p ∙ (sym (ap (run p next off passes) halts) ∙ e) in
          ap (run q next off passes) (l4_step-tcp q next off (ap (λ (x : ℕ × ℕ). x.0) here))
          ∙ (sym (halted q) ∙ here)
      | inl (inr gives_up) ↦ absurd (
          omega (
            arith,
            ap (λ (x : ℕ × ℕ). x.0) (gave_up p ∙ (sym (ap (run p next off passes) gives_up) ∙ e)),
          ))
      | inr (n, (to, goes)) ↦
          let (more, fits) = l4_step-behind p next off n to inside small goes in
          let later : l4_loop passes p n to ≡ (6, l) =
            went p n to ∙ (sym (ap (run p next off passes) goes) ∙ e) in
          let before : to ≤ l = l4_loop-le passes p n to l fits small later in
          let alike : l4_step q next off ≡ behind n to =
            l4_step-agrees p q next off len
              (same off (omega (arith, more, before)) (λ x. omega (arith, x))
                (λ x. omega (arith, x)))
              (same (off + 1) (omega (arith, more, before)) (λ x. omega (arith, x))
                (λ x. omega (arith, x)))
            ∙ goes in
          ap (run q next off passes) alike
          ∙ (sym (went q n to)
              ∙ l4_loop-agrees passes p q n to l (omega (arith, more)) fits small (len, same) later)
    ]
  where
    halted : (b : List ℕ) → (next, off) ≡ after_step halt (next, off) (l4_loop passes b)
    halted b = unfold after_step in refl

    gave_up : (b : List ℕ) → (0, 0) ≡ after_step unknown (next, off) (l4_loop passes b)
    gave_up b = unfold after_step in refl

    went :
        (b : List ℕ) (n to : ℕ)
        → l4_loop passes b n to ≡ after_step (behind n to) (next, off) (l4_loop passes b)
    went b n to = unfold after_step in refl

pub found_least :
    (p : List ℕ) (l : ℕ) → length p < 18446744073709551615 → l4_offset p ≡ (6, l) → 20 ≤ l
found_least p l small e = elim (l4_offset-IsL4 p small) [
  | inl ((_, (least, _)), found) ↦ omega (arith, least, ap (λ (x : ℕ × ℕ). x.1) (sym e ∙ found))
  | inr (inl (_, chain)) ↦ elim (Chain-ge p (l4_offset p) chain) [
    | inl none_left ↦ absurd (omega (arith, ap (λ (x : ℕ × ℕ). x.0) (sym e ∙ none_left)))
    | inr (more, _) ↦ omega (arith, more, ap (λ (x : ℕ × ℕ). x.1) e)
  ]
  | inr (inr (_, (_, none_left))) ↦
      absurd (omega (arith, ap (λ (x : ℕ × ℕ). x.0) (sym e ∙ none_left)))
]

version_kept : (p q : List ℕ) → get_or q 0 0 ≡ get_or p 0 0 → ip_version q ≡ ip_version p
version_kept p q e = rw (ip_version-first p, ip_version-first q, e) refl

ihl_kept :
    (p q : List ℕ) → length q ≡ length p → get_or q 0 0 ≡ get_or p 0 0 → ipv4_ihl q ≡ ipv4_ihl p
unfolding ipv4_ihl
ihl_kept p q len e = rw (version_kept p q e, len, e) refl

proto_kept :
    (p q : List ℕ) → length q ≡ length p → get_or q 9 0 ≡ get_or p 9 0 → ipv4_proto q ≡ ipv4_proto p
unfolding ipv4_proto
proto_kept p q len e = rw (len, e) refl

next_kept :
    (p q : List ℕ)
    → length q ≡ length p
    → get_or q 6 0 ≡ get_or p 6 0
    → ipv6_next_header q ≡ ipv6_next_header p
unfolding ipv6_next_header
next_kept p q len e = rw (len, e) refl

-- Whether a packet is TCP, and where its TCP header is, stays when the TCP header and the bytes 10
-- and 11 are written.
pub l4_offset-agrees :
    (p q : List ℕ) (l : ℕ)
    → length p < 18446744073709551615
    → l4_offset p ≡ (6, l)
    → IsLike l p q
    → l4_offset q ≡ (6, l)
unfolding l4_offset
l4_offset-agrees p q l small e (len, same) =
    let least : 20 ≤ l = found_least p l small e in
    let zeroth : get_or q 0 0 ≡ get_or p 0 0 = same 0 (omega arith) (λ x. cc) (λ x. cc) in
    rw
      (
        version_kept p q zeroth,
        ihl_kept p q len zeroth,
        proto_kept p q len (same 9 (omega arith) (λ x. omega (arith, x)) (λ x. omega (arith, x))),
        next_kept p q len (same 6 (omega arith) (λ x. omega (arith, x)) (λ x. omega (arith, x))),
        len,
      )
      (chosen (ip_version p == 4) (ip_version p == 6) (ltb (length p) 40) _ e (λ h f.
        l4_loop-agrees 8 p q (ipv6_next_header p) 40 l (omega arith) (inside h) small (len, same)
          f))
  where
    inside : ltb (length p) 40 ≡ false → 40 ≤ length p
    inside h = ground arith

    chosen :
        (v4 v6 short : Bool) (x : ℕ × ℕ)
        → (if v4
            then x
            else if v6
            then if short then (0, 0) else l4_loop 8 p (ipv6_next_header p) 40
            else (0, 0))
          ≡ (6, l)
        → (short ≡ false
            → l4_loop 8 p (ipv6_next_header p) 40 ≡ (6, l)
            → l4_loop 8 q (ipv6_next_header p) 40 ≡ (6, l))
        → (if v4
            then x
            else if v6
            then if short then (0, 0) else l4_loop 8 q (ipv6_next_header p) 40
            else (0, 0))
          ≡ (6, l)
    chosen true v6 short x f g = f
    chosen false true true x f g = f
    chosen false true false x f g = g refl f
    chosen false false short x f g = f
