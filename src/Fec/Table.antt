-- ===== src/Fec/Table.antt =====
-- The receiver reads from a recovery frame what the sender wrote into it.
use ipv_8_public_base_statio.Common.{
  ℕ, ◌+◌, ◌-◌, ◌*◌, ◌^◌, ◌/◌, ◌%◌, ◌≤◌, ◌<◌, ◌≡◌, refl, ap, sym, ◌∙◌, List, [], ◌∷◌, ◌++◌, length,
  get_or, take, drop, All, arith, false, ltb, le→ltb, le→leb, ==_refl, length-append,
  drop-length_append, drop_at, drop-add, get_or-drop, get_or_at, ok,
}
use ipv_8_public_base_statio.Common.Bytes.{of_be, to_be, u8, of_be16, of_be-to_be, length-to_be}
use ipv_8_public_base_statio.Fec.Sender.{FecTx, encode_recovery, counter_bytes, len_bytes}
use ipv_8_public_base_statio.Fec.Receiver.{
  check_head, check_members, check_lens, read_counters, read_lens, max_of,
}

length-counter_bytes : (cs : List ℕ) → length (counter_bytes cs) ≡ length cs * 8
length-counter_bytes [] = refl
length-counter_bytes (c ∷ cs) =
    omega (
      arith,
      length-append (to_be 8 c) (counter_bytes cs),
      length-to_be 8 c,
      length-counter_bytes cs,
    )

length-len_bytes : (ls : List ℕ) → length (len_bytes ls) ≡ length ls * 2
length-len_bytes [] = refl
length-len_bytes (l ∷ ls) = omega (arith, length-len_bytes ls)

Fits : ℕ → ℕ → Type 0
Fits bound n = n < bound

read_counters-eq :
    (frame : List ℕ) (offset : ℕ) (cs tail : List ℕ)
    → drop offset frame ≡ counter_bytes cs ++ tail
    → All (Fits (256 ^ 8)) cs
    → read_counters frame offset (length cs) ≡ cs
unfolding read_counters Fits to_be
read_counters-eq frame offset [] tail e h = refl
read_counters-eq frame offset (c ∷ cs) tail e (hc, h) =
    let rest : drop (offset + 8) frame ≡ counter_bytes cs ++ tail =
      drop-add offset 8 frame ∙ ap (drop 8) e in
    ap (λ x. x ∷ read_counters frame (offset + 8) (length cs))
      (ap (λ b. of_be (take 8 b)) e ∙ of_be-to_be 8 c hc)
    ∙ ap (◌∷◌ c) (read_counters-eq frame (offset + 8) cs tail rest h)

read_lens-eq :
    (frame : List ℕ) (offset : ℕ) (ls tail : List ℕ)
    → drop offset frame ≡ len_bytes ls ++ tail
    → All (Fits 65536) ls
    → read_lens frame offset (length ls) ≡ ls
unfolding read_lens Fits
read_lens-eq frame offset [] tail e h = refl
read_lens-eq frame offset (l ∷ ls) tail e (hl, h) =
    let rest : drop (offset + 2) frame ≡ len_bytes ls ++ tail =
      drop-add offset 2 frame ∙ ap (drop 2) e in
    let hi : get_or frame offset 0 ≡ l / 256 % 256 =
      get_or_at frame 0 (omega arith) ∙ get_or-drop offset frame 0 0 ∙ ap (λ b. get_or b 0 0) e in
    let lo : get_or frame (offset + 1) 0 ≡ l % 256 =
      get_or-drop offset frame 1 0 ∙ ap (λ b. get_or b 1 0) e in
    let here : of_be16 (get_or frame offset 0) (get_or frame (offset + 1) 0) ≡ l = omega arith in
    ap (λ x. x ∷ read_lens frame (offset + 2) (length ls)) here
    ∙ ap (◌∷◌ l) (read_lens-eq frame (offset + 2) ls tail rest h)

widths : (ls : List ℕ) → All (λ l. (74 ≤ l) × (l < 65536)) ls → All (Fits 65536) ls
unfolding Fits
widths [] h = tt
widths (l ∷ ls) ((lo, hi), h) = (hi, widths ls h)

below : (cs : List ℕ) → All (λ c. c < 256 ^ 8) cs → All (Fits (256 ^ 8)) cs
unfolding Fits
below [] h = tt
below (c ∷ cs) (hc, h) = (hc, below cs h)

check_lens-ok : (ls : List ℕ) → All (λ l. (74 ≤ l) × (l < 65536)) ls → check_lens ls ≡ ok tt
unfolding check_lens
check_lens-ok [] h = refl
check_lens-ok (l ∷ ls) ((lo, hi), h) = rw (le→ltb l 74 lo, check_lens-ok ls h) refl

-- A group that can be encoded: its size is 2 to 16 and its numbers fit their fields.
pub record IsEncodable (g : FecTx) (key : List ℕ) : Type 0 where
  pub key_size : length key ≡ 8
  pub size_ge : 2 ≤ length g.counters
  pub size_le : length g.counters ≤ 16
  pub same_size : length g.lens ≡ length g.counters
  pub seq_fits : g.group_seq < 256 ^ 8
  pub counters_fit : All (λ c. c < 256 ^ 8) g.counters
  pub lens_fit : All (λ l. (74 ≤ l) × (l < 65536)) g.lens
  pub acc_size : length g.acc ≡ max_of g.lens

module _ (g : FecTx) (key : List ℕ) (ok_group : IsEncodable g key) where
  abbrev pub frame : List ℕ
  frame = encode_recovery g key

  abbrev table : List ℕ
  table = counter_bytes g.counters ++ (len_bytes g.lens ++ g.acc)

  abbrev after_key : List ℕ
  after_key = to_be 8 g.group_seq ++ ((u8 (length g.counters) ∷ 0 ∷ 0 ∷ 0 ∷ []) ++ table)

  after_head : drop 10 frame ≡ after_key
  unfolding encode_recovery
  after_head =
      drop_at frame {m = 10} {n = length (1 ∷ 6 ∷ key)} (omega (arith, ok_group.key_size))
      ∙ drop-length_append (1 ∷ 6 ∷ key) after_key

  after_fixed : drop 22 frame ≡ table
  unfolding to_be
  after_fixed = drop-add 10 12 frame ∙ ap (drop 12) after_head

  after_counters : drop (22 + length g.counters * 8) frame ≡ len_bytes g.lens ++ g.acc
  after_counters =
      drop-add 22 (length g.counters * 8) frame
      ∙ ap (drop (length g.counters * 8)) after_fixed
      ∙ drop_at table (sym (length-counter_bytes g.counters))
      ∙ drop-length_append (counter_bytes g.counters) (len_bytes g.lens ++ g.acc)

  pub after_table : drop (22 + length g.counters * 10) frame ≡ g.acc
  after_table =
      drop_at frame {n = 22 + length g.counters * 8 + length g.lens * 2}
        (omega (arith, ok_group.same_size))
      ∙ drop-add (22 + length g.counters * 8) (length g.lens * 2) frame
      ∙ ap (drop (length g.lens * 2)) after_counters
      ∙ drop_at (len_bytes g.lens ++ g.acc) (sym (length-len_bytes g.lens))
      ∙ drop-length_append (len_bytes g.lens) g.acc

  length-frame : length frame ≡ 22 + length g.counters * 10 + length g.acc
  unfolding encode_recovery
  length-frame = omega (
    arith,
    ok_group.key_size,
    ok_group.same_size,
    length-append (1 ∷ 6 ∷ key) after_key,
    length-append (to_be 8 g.group_seq) ((u8 (length g.counters) ∷ 0 ∷ 0 ∷ 0 ∷ []) ++ table),
    length-to_be 8 g.group_seq,
    length-append (counter_bytes g.counters) (len_bytes g.lens ++ g.acc),
    length-append (len_bytes g.lens) g.acc,
    length-counter_bytes g.counters,
    length-len_bytes g.lens,
  )

  pub check_head-frame : check_head frame ≡ ok (g.group_seq, length g.counters)
  unfolding check_head to_be
  check_head-frame =
      let size = length-frame in
      let b0 : get_or frame 0 0 ≡ 1 = unfold encode_recovery in refl in
      let b1 : get_or frame 1 0 ≡ 6 = unfold encode_recovery in refl in
      let seq : of_be (take 8 (drop 10 frame)) ≡ g.group_seq =
        ap (λ b. of_be (take 8 b)) after_head ∙ of_be-to_be 8 g.group_seq ok_group.seq_fits in
      let k : get_or frame 18 0 ≡ length g.counters =
        get_or-drop 10 frame 8 0 ∙ ap (λ b. get_or b 8 0) after_head ∙ small ok_group.size_le in
      let room : ltb (length frame) 22 ≡ false = le→ltb (length frame) 22 (omega arith) in
      let whole : ltb (length frame) (22 + length g.counters * 10) ≡ false =
        le→ltb (length frame) (22 + length g.counters * 10) (omega arith) in
      rw
        (
          b0,
          b1,
          k,
          seq,
          room,
          whole,
          le→leb 2 (length g.counters) ok_group.size_ge,
          le→leb (length g.counters) 16 ok_group.size_le,
        )
        refl
    where
      small : {n : ℕ} → n ≤ 16 → n % 256 ≡ n
      small h = omega arith

  pub check_members-frame : check_members frame (length g.counters) ≡ ok (g.counters, g.lens)
  unfolding check_members
  check_members-frame =
      let size = length-frame in
      let lens : read_lens frame (22 + length g.counters * 8) (length g.counters) ≡ g.lens =
        ap (read_lens frame (22 + length g.counters * 8)) (sym ok_group.same_size)
        ∙ read_lens-eq frame (22 + length g.counters * 8) g.lens g.acc after_counters
            (widths g.lens ok_group.lens_fit) in
      let xor_len : length frame - (22 + length g.counters * 10) ≡ max_of g.lens =
        omega (arith, ok_group.acc_size) in
      let counters : read_counters frame 22 (length g.counters) ≡ g.counters =
        read_counters-eq frame 22 g.counters (len_bytes g.lens ++ g.acc) after_fixed
          (below g.counters ok_group.counters_fit) in
      rw (lens, xor_len, counters, ==_refl (max_of g.lens), check_lens-ok g.lens ok_group.lens_fit)
        refl
