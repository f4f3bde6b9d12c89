-- ===== src/Compat/Icmp/V6.antt =====
-- What the ICMPv6 errors hold.
use ipv_8_public_base_statio.Common.{
  ℕ, zero, suc, ◌+◌, ◌-◌, ◌/◌, ◌%◌, ◌≤◌, ◌<◌, ◌≡◌, refl, ap, sym, ◌∙◌, List, [], ◌∷◌, ◌++◌, length,
  take, drop, set, arith, length-set, length-append, length-take, length-drop, le→ltb, some, min,
  append_assoc, drop-add,
}
use ipv_8_public_base_statio.Common.Bytes.{AreBytes, u32}
use ipv_8_public_base_statio.Compat.Checksum.{
  fold_carries, icmpv6_checksum, ones_complement_sum, pseudo_v6,
}
use ipv_8_public_base_statio.Compat.Checksum.Laws.{
  AreBytes-append, AreBytes-drop, AreBytes-put_word, AreBytes-take, put_word, set-set,
}
use ipv_8_public_base_statio.Compat.Checksum.Tcp.{Verifies, complement_verifies, pseudo_v6-lt}
use ipv_8_public_base_statio.Compat.Ip.{ip_version, ipv6_dst, ipv6_src}
use ipv_8_public_base_statio.Compat.Icmp.{error_v6, outer_v6, quoted_v6, written_at}
use ipv_8_public_base_statio.Compat.Icmp.Laws.{drop_at_end, take_at}

-- An answer over IPv6: of bytes, at most 96 bytes, from `our_addr` to the source of the packet,
-- with a message that verifies under its pseudo-header, of the given type and code, with the given
-- four bytes behind its checksum and with the start of the packet behind those.
pub record IsReplyV6 (kind code : ℕ) (word original our_addr reply : List ℕ) : Type 0 where
  pub says : take 2 (drop 40 reply) ≡ kind ∷ code ∷ []
  pub carries : take 4 (drop 44 reply) ≡ word
  pub bytes : AreBytes reply
  pub small : length reply ≤ 96
  pub verifies : Verifies (pseudo_v6 reply 40 58) (drop 40 reply)
  pub from_us : ipv6_src reply ≡ some our_addr
  pub to_source : ipv6_dst reply ≡ ipv6_src original
  pub quotes : drop 48 reply ≡ quoted_v6 original

set_behind :
    (xs ys : List ℕ) (i j v : ℕ) → length xs + i ≡ j → set (xs ++ ys) j v ≡ xs ++ set ys i v
set_behind [] ys i j v e = ap (λ (n : ℕ). set ys n v) {x = j} {y = i} (omega arith)
set_behind (x ∷ xs) ys i zero v e = absurd (omega arith)
set_behind (x ∷ xs) ys i (suc j) v e =
    ap (λ (t : List ℕ). x ∷ t) (set_behind xs ys i j v (omega arith))

put_behind :
    (xs ys : List ℕ) (a b : ℕ)
    → length xs ≡ 40
    → set (set (xs ++ ys) 42 a) 43 b ≡ xs ++ set (set ys 2 a) 3 b
put_behind xs ys a b len =
    ap (λ (t : List ℕ). set t 43 b) (set_behind xs ys 2 42 a (omega arith))
    ∙ set_behind xs (set ys 2 a) 3 43 b (omega arith)

ipv6_src_at : (p a : List ℕ) → 24 ≤ length p → take 16 (drop 8 p) ≡ a → ipv6_src p ≡ some a
unfolding ipv6_src
ipv6_src_at p a h e = rw (le→ltb (length p) 24 h) (ap some e)

ipv6_dst_at : (p a : List ℕ) → 40 ≤ length p → take 16 (drop 24 p) ≡ a → ipv6_dst p ≡ some a
unfolding ipv6_dst
ipv6_dst_at p a h e = rw (le→ltb (length p) 40 h) (ap some e)

quoted_v6-le : (p : List ℕ) → length (quoted_v6 p) ≤ 48
unfolding quoted_v6
quoted_v6-le p = omega (arith, length-take (min 48 (length p)) p)

quoted_v6-AreBytes : (p : List ℕ) → AreBytes p → AreBytes (quoted_v6 p)
unfolding quoted_v6
quoted_v6-AreBytes p all = AreBytes-take (min 48 (length p)) p all

-- The checksum of a message behind a header of 40 bytes.
abbrev sum_v6 : List ℕ → List ℕ → ℕ
sum_v6 outer icmp =
    65535
    - fold_carries 2 (
        u32 (
          ones_complement_sum (pseudo_v6 (outer ++ icmp) 40 58)
          + ones_complement_sum (set (set icmp 2 0) 3 0)))

written_behind :
    (outer icmp : List ℕ)
    → length outer ≡ 40
    → 4 ≤ length icmp
    → written_at 42 (icmpv6_checksum (outer ++ icmp)) ≡ outer ++ put_word icmp 2 (sum_v6 outer icmp)
unfolding written_at icmpv6_checksum
written_behind outer icmp len least =
    let c : ℕ = sum_v6 outer icmp in
    rw
      (
        le→ltb (length (outer ++ icmp)) 44 (omega (arith, length-append outer icmp, len)),
        put_behind outer icmp 0 0 len,
        drop_at_end outer (set (set icmp 2 0) 3 0) len,
        put_behind outer (set (set icmp 2 0) 3 0) (c / 256 % 256) (c % 256) len,
        set-set icmp 2 0 0 (c / 256 % 256) (c % 256),
      )
      refl

module _ (our src : List ℕ) (our_len : length our ≡ 16) (src_len : length src ≡ 16) where
  length-outer_v6 : (n : ℕ) → length (outer_v6 our src n) ≡ 40
  unfolding outer_v6
  length-outer_v6 n = omega (arith, length-append our src, our_len, src_len)

  AreBytes-outer_v6 : (n : ℕ) → AreBytes our → AreBytes src → AreBytes (outer_v6 our src n)
  unfolding outer_v6
  AreBytes-outer_v6 n all_our all_src =
      AreBytes-append (96 ∷ 0 ∷ 0 ∷ 0 ∷ n % 65536 / 256 % 256 ∷ n % 65536 % 256 ∷ 58 ∷ 64 ∷ [])
        (our ++ src) (ground arith) (AreBytes-append our src all_our all_src)

  addresses : (n : ℕ) (x : List ℕ) → take 32 (drop 8 (outer_v6 our src n ++ x)) ≡ our ++ src
  unfolding outer_v6
  addresses n x =
      take_at (our ++ src) x {n = 32} (omega (arith, length-append our src, our_len, src_len))

  -- The pseudo-header looks at the message only for its length.
  pseudo_kept :
      (n : ℕ) (x y : List ℕ)
      → length x ≡ length y
      → pseudo_v6 (outer_v6 our src n ++ x) 40 58 ≡ pseudo_v6 (outer_v6 our src n ++ y) 40 58
  pseudo_kept n x y e =
      rw
        (
          addresses n x,
          addresses n y,
          length-append (outer_v6 our src n) x,
          length-append (outer_v6 our src n) y,
          e,
        )
        refl

  reply_src : (n : ℕ) (x : List ℕ) → ipv6_src (outer_v6 our src n ++ x) ≡ some our
  unfolding outer_v6
  reply_src n x =
      ipv6_src_at (outer_v6 our src n ++ x) our
        (omega (arith, length-append (outer_v6 our src n) x, length-outer_v6 n))
        (rw (append_assoc our src x) (take_at our (src ++ x) our_len))

  reply_dst : (n : ℕ) (x : List ℕ) → ipv6_dst (outer_v6 our src n ++ x) ≡ some src
  unfolding outer_v6
  reply_dst n x =
      ipv6_dst_at (outer_v6 our src n ++ x) src
        (omega (arith, length-append (outer_v6 our src n) x, length-outer_v6 n))
        (rw (append_assoc our src x, drop_at_end our (src ++ x) our_len) (take_at src x src_len))

  wrap_v6-IsReply :
      (kind code : ℕ) (word original icmp : List ℕ)
      → AreBytes our
      → AreBytes src
      → AreBytes icmp
      → 8 ≤ length icmp
      → length icmp ≤ 56
      → drop 8 icmp ≡ quoted_v6 original
      → ipv6_src original ≡ some src
      → take 2 icmp ≡ kind ∷ code ∷ []
      → take 4 (drop 4 icmp) ≡ word
      → IsReplyV6 kind code word original our
          (written_at 42 (icmpv6_checksum (outer_v6 our src (length icmp) ++ icmp)))
  wrap_v6-IsReply kind code word original icmp all_our all_src all least most quote is_src says
        carries =
      let n : ℕ = length icmp in
      let outer : List ℕ = outer_v6 our src n in
      let message : List ℕ = put_word icmp 2 (sum_v6 outer icmp) in
      let same : length message ≡ n = length-put icmp (sum_v6 outer icmp) in
      let rest : drop 40 (outer ++ message) ≡ message =
        drop_at_end outer message (length-outer_v6 n) in
      rw (written_behind outer icmp (length-outer_v6 n) (omega (arith, least))) (record {
        says = ap (take 2) rest ∙ (kept_two icmp (sum_v6 outer icmp) ∙ says);
        carries =
            ap (take 4) (drop-add 40 4 (outer ++ message))
            ∙ (ap (λ (t : List ℕ). take 4 (drop 4 t)) rest
                ∙ (ap (take 4) (kept_four icmp (sum_v6 outer icmp)) ∙ carries));
        bytes =
            AreBytes-append outer message (AreBytes-outer_v6 n all_our all_src)
              (AreBytes-put_word icmp 2 (sum_v6 outer icmp) all);
        small = omega (arith, length-append outer message, length-outer_v6 n, same);
        verifies =
            rw (pseudo_kept n message icmp same, rest)
              (complement_verifies (ones_complement_sum (pseudo_v6 (outer ++ icmp) 40 58)) 2 icmp
                (pseudo_v6-lt (outer ++ icmp) 40 58 (omega arith)
                  (AreBytes-append outer icmp (AreBytes-outer_v6 n all_our all_src) all))
                refl (omega (arith, least)) (omega (arith, most)) all);
        from_us = reply_src n message;
        to_source = reply_dst n message ∙ sym is_src;
        quotes =
            drop-add 40 8 (outer ++ message)
            ∙ (ap (drop 8) rest ∙ (kept icmp (sum_v6 outer icmp) ∙ quote));
      })
    where
      length-put : (p : List ℕ) (c : ℕ) → length (put_word p 2 c) ≡ length p
      length-put p c =
          length-set (set p 2 (c / 256 % 256)) 3 (c % 256) ∙ length-set p 2 (c / 256 % 256)

      kept_two : (p : List ℕ) (c : ℕ) → take 2 (put_word p 2 c) ≡ take 2 p
      kept_two [] c = refl
      kept_two (x ∷ []) c = refl
      kept_two (x ∷ y ∷ r) c = refl

      kept_four : (p : List ℕ) (c : ℕ) → drop 4 (put_word p 2 c) ≡ drop 4 p
      kept_four [] c = refl
      kept_four (x ∷ []) c = refl
      kept_four (x ∷ y ∷ []) c = refl
      kept_four (x ∷ y ∷ z ∷ []) c = refl
      kept_four (x ∷ y ∷ z ∷ t ∷ r) c = refl

      kept : (p : List ℕ) (c : ℕ) → drop 8 (put_word p 2 c) ≡ drop 8 p
      kept [] c = refl
      kept (x ∷ []) c = refl
      kept (x ∷ y ∷ []) c = refl
      kept (x ∷ y ∷ z ∷ []) c = refl
      kept (x ∷ y ∷ z ∷ t ∷ r) c = refl

-- A packet of bytes with a whole IPv6 header is answered by such a reply.
pub error_v6-IsReply :
    (kind code : ℕ) (rest original our : List ℕ)
    → kind < 256
    → code < 256
    → AreBytes rest
    → length rest ≡ 4
    → AreBytes original
    → ip_version original ≡ 6
    → 40 ≤ length original
    → AreBytes our
    → length our ≡ 16
    → (reply : List ℕ) × ((error_v6 kind code rest original our ≡ some reply)
        × IsReplyV6 kind code rest original our reply)
unfolding error_v6
error_v6-IsReply kind code rest original our h k all_rest rest_len all version least all_our
      our_len =
    let src : List ℕ = take 16 (drop 8 original) in
    let is_src : ipv6_src original ≡ some src = ipv6_src_at original src (omega arith) refl in
    let src_len : length src ≡ 16 =
      omega (arith, length-take 16 (drop 8 original), length-drop 8 original) in
    let payload : List ℕ = quoted_v6 original in
    let icmp : List ℕ = kind ∷ code ∷ 0 ∷ 0 ∷ (rest ++ payload) in
    (
      written_at 42 (icmpv6_checksum (outer_v6 our src (length icmp) ++ icmp)),
      (
        rw (version, le→ltb (length original) 40 least, is_src) refl,
        wrap_v6-IsReply our src our_len src_len kind code rest original icmp all_our
            (AreBytes-take 16 (drop 8 original) (AreBytes-drop 8 original all))
            (
              h,
              (
                k,
                (
                  omega arith,
                  (
                    omega arith,
                    AreBytes-append rest payload all_rest (quoted_v6-AreBytes original all),
                  ),
                ),
              ),
            )
            (omega (arith, length-append rest payload))
            (omega (arith, length-append rest payload, quoted_v6-le original))
            (drop_at_end rest payload rest_len) is_src refl (take_at rest payload rest_len),
      ),
    )
