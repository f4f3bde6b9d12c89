-- ===== src/Compat/Checksum/Tcp.antt =====
-- A TCP segment into which its checksum was written verifies under its pseudo-header.
use ipv_8_public_base_statio.Common.{
  ℕ, suc, [], ◌%◌, ◌++◌, ◌+◌, ◌-◌, ◌≤◌, ◌<◌, ◌≡◌, refl, ap, ◌∙◌, List, ◌∷◌, length, take, set,
  arith, drop, get_or, le→ltb, length-append, length-take, length-drop,
}
use ipv_8_public_base_statio.Common.Bytes.{
  to_be, length-to_be, AreBytes-to_be, be16, u16, AreBytes, u32,
}
use ipv_8_public_base_statio.Compat.Checksum.{
  pseudo_v6, tcp_checksum_v6, tcp_checksum_v6_with_proto, pseudo_checksum, pseudo_v4,
  tcp_checksum_v4, fold_carries, ones_complement_sum,
}
use ipv_8_public_base_statio.Compat.Checksum.Laws.{
  word_sum, word_sum-le, fold_carries-two, fold_carries-lt, ones_complement_sum-word_sum,
  cleared_sum-lt, put_word, put_word-grown, AreBytes-take, AreBytes-drop, AreBytes-append,
  get_or-IsByte,
}

ones_complement_sum-lt : (p : List ℕ) → word_sum p < 4294967296 → ones_complement_sum p < 65536
ones_complement_sum-lt p h =
    omega (arith, ones_complement_sum-word_sum p h, fold_carries-lt (word_sum p) h)

-- The same where a sum of its own is added to that of the segment.
fold_carries-beside :
    (a s : ℕ)
    → a < 65536
    → s < 4294901760
    → (c : ℕ) → c ≡ 65535 - fold_carries 2 (a + fold_carries 2 s)
    → fold_carries 2 (a + fold_carries 2 (s + c)) ≡ 65535
fold_carries-beside a s small bound c e =
    let lt : fold_carries 2 s < 65536 = fold_carries-lt s (omega arith) in
    let lt_grown : fold_carries 2 (s + c) < 65536 = fold_carries-lt (s + c) (omega arith) in
    omega (
      arith,
      fold_carries-two s (omega arith),
      fold_carries-two (a + fold_carries 2 s) (omega (arith, lt)),
      fold_carries-two (s + c) (omega arith),
      fold_carries-two (a + fold_carries 2 (s + c)) (omega (arith, lt_grown)),
    )

pseudo_v4-lt : (p : List ℕ) (off : ℕ) → AreBytes p → ones_complement_sum (pseudo_v4 p off) < 65536
pseudo_v4-lt p off all =
    let pseudo : List ℕ = pseudo_v4 p off in
    let len : length pseudo ≤ 12 =
      rw (length-append (take 8 (drop 12 p)) (0 ∷ get_or p 9 0 ∷ be16 (u16 (length p - off))))
        (omega (arith, length-take 8 (drop 12 p))) in
    ones_complement_sum-lt pseudo (
      omega (
        arith,
        len,
        word_sum-le pseudo (
            AreBytes-append (take 8 (drop 12 p)) (0 ∷ get_or p 9 0 ∷ be16 (u16 (length p - off)))
              (AreBytes-take 8 (drop 12 p) (AreBytes-drop 12 p all))
              (omega arith, (get_or-IsByte p 9 all, (omega arith, (omega arith, tt))))),
      ))

-- What a receiver looks at: the sums of pseudo-header and segment fold to all ones.
abbrev pub Verifies : List ℕ → List ℕ → Type 0
Verifies pseudo segment =
    fold_carries 2 (ones_complement_sum pseudo + ones_complement_sum segment) ≡ 65535

-- The checksum over the sum `a` of a pseudo-header, written into the field at `k`.
pub complement_verifies :
    (a k : ℕ) (segment : List ℕ)
    → a < 65536
    → k % 2 ≡ 0
    → suc k < length segment
    → length segment ≤ 65535
    → AreBytes segment
    → fold_carries 2 (
        a
        + ones_complement_sum (
            put_word segment k (
              65535
              - fold_carries 2 (u32 (a + ones_complement_sum (set (set segment k 0) (suc k) 0))))))
      ≡ 65535
complement_verifies a k segment lt even inside most bytes =
    let cleared : List ℕ = set (set segment k 0) (suc k) 0 in
    let bound : word_sum cleared < 4294901760 = cleared_sum-lt k segment most bytes in
    let sum : ones_complement_sum cleared ≡ fold_carries 2 (word_sum cleared) =
      ones_complement_sum-word_sum cleared (omega (arith, bound)) in
    let c : ℕ = 65535 - fold_carries 2 (u32 (a + ones_complement_sum cleared)) in
    let e : u32 (a + ones_complement_sum cleared) ≡ a + fold_carries 2 (word_sum cleared) =
      omega (arith, sum, fold_carries-lt (word_sum cleared) (omega (arith, bound))) in
    ap (λ (t : ℕ). fold_carries 2 (a + t))
      (put_word-grown k segment even inside most bytes c (omega arith))
    ∙ fold_carries-beside a (word_sum cleared) lt bound c
        (ap (λ (t : ℕ). 65535 - fold_carries 2 t) e)

-- A TCP segment of an IPv4 packet of bytes, of at most 65535 of them, that holds the TCP header
-- verifies under its pseudo-header once its checksum is written into bytes 16 and 17.
pub tcp_checksum_v4-Verifies :
    (p : List ℕ) (off : ℕ)
    → AreBytes p
    → off + 20 ≤ length p
    → length p ≤ 65535
    → Verifies (pseudo_v4 p off) (put_word (drop off p) 16 (tcp_checksum_v4 p off))
unfolding tcp_checksum_v4 pseudo_checksum
tcp_checksum_v4-Verifies p off all holds small = rw (le→ltb (length p) (off + 20) holds) (
    complement_verifies (ones_complement_sum (pseudo_v4 p off)) 16 (drop off p)
      (pseudo_v4-lt p off all) refl (omega (arith, length-drop off p))
      (omega (arith, length-drop off p)) (AreBytes-drop off p all))

pub pseudo_v6-lt :
    (p : List ℕ) (off proto : ℕ)
    → proto < 256
    → AreBytes p
    → ones_complement_sum (pseudo_v6 p off proto) < 65536
pseudo_v6-lt p off proto is_byte all =
    let tail : List ℕ = to_be 4 (u32 (length p - off)) ++ (0 ∷ 0 ∷ 0 ∷ proto ∷ []) in
    let pseudo : List ℕ = pseudo_v6 p off proto in
    let len : length pseudo ≤ 40 =
      rw
        (
          length-append (take 32 (drop 8 p)) tail,
          length-append (to_be 4 (u32 (length p - off))) (0 ∷ 0 ∷ 0 ∷ proto ∷ []),
          length-to_be 4 (u32 (length p - off)),
        )
        (omega (arith, length-take 32 (drop 8 p))) in
    ones_complement_sum-lt pseudo (
      omega (
        arith,
        len,
        word_sum-le pseudo (
            AreBytes-append (take 32 (drop 8 p)) tail
              (AreBytes-take 32 (drop 8 p) (AreBytes-drop 8 p all))
              (AreBytes-append (to_be 4 (u32 (length p - off))) (0 ∷ 0 ∷ 0 ∷ proto ∷ [])
                (AreBytes-to_be 4 (u32 (length p - off)))
                (omega arith, (omega arith, (omega arith, (is_byte, tt)))))),
      ))

-- The same over IPv6.
pub tcp_checksum_v6-Verifies :
    (p : List ℕ) (off : ℕ)
    → AreBytes p
    → off + 20 ≤ length p
    → length p ≤ 65535
    → Verifies (pseudo_v6 p off 6) (put_word (drop off p) 16 (tcp_checksum_v6 p off))
unfolding tcp_checksum_v6 tcp_checksum_v6_with_proto pseudo_checksum
tcp_checksum_v6-Verifies p off all holds small = rw (le→ltb (length p) (off + 20) holds) (
    complement_verifies (ones_complement_sum (pseudo_v6 p off 6)) 16 (drop off p)
      (pseudo_v6-lt p off 6 (omega arith) all) refl (omega (arith, length-drop off p))
      (omega (arith, length-drop off p)) (AreBytes-drop off p all))
