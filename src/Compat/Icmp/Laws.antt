-- ===== src/Compat/Icmp/Laws.antt =====
-- What the ICMP errors over IPv4 hold (src/core/ipv8-compat/src/icmp.rs).
use ipv_8_public_base_statio.Common.{
  ℕ, suc, ◌+◌, ◌*◌, ◌/◌, ◌%◌, ◌≤◌, ◌<◌, ◌≡◌, refl, ap, sym, subst, ◌∙◌, List, [], ◌∷◌, ◌++◌, length,
  take, drop, set, get_or, arith, length-set, length-append, length-take, length-drop, le→ltb, some,
  replicate, min, take-length_append, drop-length_append, append_assoc, drop-add,
}
use ipv_8_public_base_statio.Common.Bytes.{AreBytes}
use ipv_8_public_base_statio.Compat.Checksum.{checksum, ip_header_checksum}
use ipv_8_public_base_statio.Compat.Checksum.Laws.{
  AreBytes-append, AreBytes-drop, AreBytes-put_word, AreBytes-take, put_word, set-set, take-set,
  written_verifies,
}
use ipv_8_public_base_statio.Compat.Ip.{ip_version, ipv4_dst, ipv4_ihl, ipv4_src}
use ipv_8_public_base_statio.Compat.Icmp.{
  error_v4, icmp_message, outer_v4, quoted_v4, wrap_v4, written_at,
}
use ipv_8_public_base_statio.Compat.Icmp.Message.{
  AreBytes-icmp_message, icmp_message-verifies, icmp_message_eq, length-icmp_message,
}

take_put :
    (n k a b : ℕ) (p : List ℕ)
    → take n (set (set p k a) (suc k) b) ≡ set (set (take n p) k a) (suc k) b
take_put n k a b p =
    take-set n (suc k) b (set p k a) ∙ ap (λ (q : List ℕ). set q (suc k) b) (take-set n k a p)

-- The header of 20 bytes that is written before the rest `z` of the buffer.
header_written :
    (header z : List ℕ)
    → length header ≡ 20
    → get_or (header ++ z) 0 0 % 16 * 4 ≡ 20
    → take 20 (written_at 10 (ip_header_checksum (header ++ z)))
      ≡ put_word header 10 (checksum (set (set header 10 0) 11 0))
unfolding written_at ip_header_checksum
header_written header z len ihl =
    let q : List ℕ = header ++ z in
    let kept : take 20 q ≡ header =
      subst (λ (n : ℕ). take n q ≡ header) len (take-length_append header z) in
    let c : ℕ = checksum (take 20 (set (set q 10 0) 11 0)) in
    let e : c ≡ checksum (set (set header 10 0) 11 0) =
      ap checksum (take_put 20 10 0 0 q ∙ ap (λ (t : List ℕ). set (set t 10 0) 11 0) kept) in
    rw
      (
        ihl,
        le→ltb (length q) 20 (omega (arith, length-append header z, len)),
        set-set q 10 0 0 (c / 256 % 256) (c % 256),
        take_put 20 10 (c / 256 % 256) (c % 256) q,
        kept,
        e,
      )
      refl

pub take_at : (xs ys : List ℕ) {n : ℕ} → length xs ≡ n → take n (xs ++ ys) ≡ xs
take_at xs ys e = subst (λ (n : ℕ). take n (xs ++ ys) ≡ xs) e (take-length_append xs ys)

pub drop_at_end : (xs ys : List ℕ) {n : ℕ} → length xs ≡ n → drop n (xs ++ ys) ≡ ys
drop_at_end xs ys e = subst (λ (n : ℕ). drop n (xs ++ ys) ≡ ys) e (drop-length_append xs ys)

ipv4_src_at : (p a : List ℕ) → 16 ≤ length p → take 4 (drop 12 p) ≡ a → ipv4_src p ≡ some a
unfolding ipv4_src
ipv4_src_at p a h e = rw (le→ltb (length p) 16 h) (ap some e)

ipv4_dst_at : (p a : List ℕ) → 20 ≤ length p → take 4 (drop 16 p) ≡ a → ipv4_dst p ≡ some a
unfolding ipv4_dst
ipv4_dst_at p a h e = rw (le→ltb (length p) 20 h) (ap some e)

-- An answer over IPv4: of bytes, at most 96 bytes, from `our_addr` to the source of the packet,
-- with an IP header and an ICMP message that verify, of the given type and code, with the given four
-- bytes behind its checksum and with the start of the packet behind those.
pub record IsReplyV4 (kind code : ℕ) (word original our_addr reply : List ℕ) : Type 0 where
  pub says : take 2 (drop 20 reply) ≡ kind ∷ code ∷ []
  pub carries : take 4 (drop 24 reply) ≡ word
  pub bytes : AreBytes reply
  pub small : length reply ≤ 96
  pub header_verifies : checksum (take 20 reply) ≡ 0
  pub message_verifies : checksum (drop 20 reply) ≡ 0
  pub from_us : ipv4_src reply ≡ some our_addr
  pub to_source : ipv4_dst reply ≡ ipv4_src original
  pub quotes : drop 28 reply ≡ quoted_v4 original

ihl-le : (p : List ℕ) → ipv4_ihl p ≤ 60
unfolding ipv4_ihl
ihl-le p = ground arith

quoted_v4-le : (p : List ℕ) → length (quoted_v4 p) ≤ 68
unfolding quoted_v4
quoted_v4-le p = omega (arith, length-take (min (ipv4_ihl p + 8) (length p)) p, ihl-le p)

quoted_v4-AreBytes : (p : List ℕ) → AreBytes p → AreBytes (quoted_v4 p)
unfolding quoted_v4
quoted_v4-AreBytes p all = AreBytes-take (min (ipv4_ihl p + 8) (length p)) p all

module _ (our src : List ℕ) (our_len : length our ≡ 4) (src_len : length src ≡ 4) where
  length-outer_v4 : (n : ℕ) → length (outer_v4 our src n) ≡ 20
  unfolding outer_v4
  length-outer_v4 n = omega (arith, length-append our src, our_len, src_len)

  AreBytes-outer_v4 : (n : ℕ) → AreBytes our → AreBytes src → AreBytes (outer_v4 our src n)
  unfolding outer_v4
  AreBytes-outer_v4 n all_our all_src =
      AreBytes-append
        (69 ∷ 0 ∷ n % 65536 / 256 % 256 ∷ n % 65536 % 256 ∷ 0 ∷ 0 ∷ 0 ∷ 0 ∷ 64 ∷ 1 ∷ 0 ∷ 0 ∷ [])
        (our ++ src) (ground arith) (AreBytes-append our src all_our all_src)

  abbrev sum_v4 : ℕ → ℕ
  sum_v4 n = checksum (set (set (outer_v4 our src n) 10 0) 11 0)

  first_v4 : (n : ℕ) (z : List ℕ) → get_or (outer_v4 our src n ++ z) 0 0 % 16 * 4 ≡ 20
  unfolding outer_v4
  first_v4 n z = refl

  wrap_v4_eq :
      (icmp : List ℕ)
      → wrap_v4 our src icmp
        ≡ put_word (outer_v4 our src (20 + length icmp)) 10 (sum_v4 (20 + length icmp)) ++ icmp
  unfolding wrap_v4
  wrap_v4_eq icmp =
      let n : ℕ = 20 + length icmp in
      ap (λ (header : List ℕ). header ++ icmp)
        (header_written (outer_v4 our src n) (replicate (length icmp) 0) (length-outer_v4 n)
          (first_v4 n (replicate (length icmp) 0)))

  length-put : (n c : ℕ) → length (put_word (outer_v4 our src n) 10 c) ≡ 20
  length-put n c =
      length-set (set (outer_v4 our src n) 10 (c / 256 % 256)) 11 (c % 256)
      ∙ (length-set (outer_v4 our src n) 10 (c / 256 % 256) ∙ length-outer_v4 n)

  put-src :
      (n c : ℕ) (icmp : List ℕ) → ipv4_src (put_word (outer_v4 our src n) 10 c ++ icmp) ≡ some our
  unfolding outer_v4
  put-src n c icmp =
      ipv4_src_at (put_word (outer_v4 our src n) 10 c ++ icmp) our
        (omega (arith, length-append (put_word (outer_v4 our src n) 10 c) icmp, length-put n c))
        (rw (append_assoc our src icmp) (take_at our (src ++ icmp) our_len))

  put-dst :
      (n c : ℕ) (icmp : List ℕ) → ipv4_dst (put_word (outer_v4 our src n) 10 c ++ icmp) ≡ some src
  unfolding outer_v4
  put-dst n c icmp =
      ipv4_dst_at (put_word (outer_v4 our src n) 10 c ++ icmp) src
        (omega (arith, length-append (put_word (outer_v4 our src n) 10 c) icmp, length-put n c))
        (rw (append_assoc our src icmp, drop_at_end our (src ++ icmp) our_len)
          (take_at src icmp src_len))

  wrap_v4-IsReply :
      (kind code : ℕ) (word original icmp : List ℕ)
      → AreBytes our
      → AreBytes src
      → AreBytes icmp
      → length icmp ≤ 76
      → checksum icmp ≡ 0
      → drop 8 icmp ≡ quoted_v4 original
      → ipv4_src original ≡ some src
      → take 2 icmp ≡ kind ∷ code ∷ []
      → take 4 (drop 4 icmp) ≡ word
      → IsReplyV4 kind code word original our (wrap_v4 our src icmp)
  wrap_v4-IsReply kind code word original icmp all_our all_src all most verifies quote is_src says
        carries =
      let n : ℕ = 20 + length icmp in
      let header : List ℕ = put_word (outer_v4 our src n) 10 (sum_v4 n) in
      let len : length header ≡ 20 = length-put n (sum_v4 n) in
      let rest : drop 20 (header ++ icmp) ≡ icmp = drop_at_end header icmp len in
      rw (wrap_v4_eq icmp) (record {
        says = ap (take 2) rest ∙ says;
        carries =
            ap (take 4) (drop-add 20 4 (header ++ icmp))
            ∙ (ap (λ (t : List ℕ). take 4 (drop 4 t)) rest ∙ carries);
        bytes =
            AreBytes-append header icmp
              (AreBytes-put_word (outer_v4 our src n) 10 (sum_v4 n)
                (AreBytes-outer_v4 n all_our all_src))
              all;
        small = omega (arith, length-append header icmp, len);
        header_verifies =
            ap checksum (take_at header icmp len)
            ∙ written_verifies 10 (outer_v4 our src n) refl (omega (arith, length-outer_v4 n))
                (omega (arith, length-outer_v4 n)) (AreBytes-outer_v4 n all_our all_src) (sum_v4 n)
                refl;
        message_verifies = ap checksum rest ∙ verifies;
        from_us = put-src n (sum_v4 n) icmp;
        to_source = put-dst n (sum_v4 n) icmp ∙ sym is_src;
        quotes = drop-add 20 8 (header ++ icmp) ∙ (ap (drop 8) rest ∙ quote);
      })

-- A packet of bytes with a whole IPv4 header is answered by such a reply.
pub error_v4-IsReply :
    (kind code : ℕ) (rest original our : List ℕ)
    → kind < 256
    → code < 256
    → AreBytes rest
    → length rest ≡ 4
    → AreBytes original
    → ip_version original ≡ 4
    → 20 ≤ length original
    → AreBytes our
    → length our ≡ 4
    → (reply : List ℕ) × ((error_v4 kind code rest original our ≡ some reply)
        × IsReplyV4 kind code rest original our reply)
unfolding error_v4
error_v4-IsReply kind code rest original our h k all_rest rest_len all version least all_our
      our_len =
    let src : List ℕ = take 4 (drop 12 original) in
    let is_src : ipv4_src original ≡ some src = ipv4_src_at original src (omega arith) refl in
    let src_len : length src ≡ 4 =
      omega (arith, length-take 4 (drop 12 original), length-drop 12 original) in
    let payload : List ℕ = quoted_v4 original in
    let icmp : List ℕ = icmp_message kind code rest payload in
    (
      wrap_v4 our src icmp,
      (
        rw (version, le→ltb (length original) 20 least, is_src) refl,
        wrap_v4-IsReply our src our_len src_len kind code rest original icmp all_our
            (AreBytes-take 4 (drop 12 original) (AreBytes-drop 12 original all))
            (AreBytes-icmp_message kind code rest payload h k all_rest
              (quoted_v4-AreBytes original all))
            (omega (arith, length-icmp_message kind code rest payload, quoted_v4-le original))
            (icmp_message-verifies kind code rest payload h k all_rest
              (quoted_v4-AreBytes original all)
              (omega (arith, length-append rest payload, quoted_v4-le original)))
            (quote payload) is_src (said payload) (carried payload),
      ),
    )
  where
    quote : (payload : List ℕ) → drop 8 (icmp_message kind code rest payload) ≡ payload
    quote payload = rw (icmp_message_eq kind code rest payload) (drop_at_end rest payload rest_len)

    said : (payload : List ℕ) → take 2 (icmp_message kind code rest payload) ≡ kind ∷ code ∷ []
    said payload = rw (icmp_message_eq kind code rest payload) refl

    carried : (payload : List ℕ) → take 4 (drop 4 (icmp_message kind code rest payload)) ≡ rest
    carried payload = rw (icmp_message_eq kind code rest payload) (take_at rest payload rest_len)
