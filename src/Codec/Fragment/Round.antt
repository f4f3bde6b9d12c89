-- ===== src/Codec/Fragment/Round.antt =====
-- The fragment header is read back, and a round of the fragmenter
-- (src/core/ipv8-codec/src/fragment.rs).
use ipv_8_public_base_statio.Common.{
  ℕ, zero, suc, ◌+◌, ◌-◌, ◌*◌, ◌/◌, ◌%◌, ◌^◌, ◌≤◌, ◌<◌, ◌≡◌, refl, ap, sym, subst, Bool, true,
  false, List, [], ◌∷◌, ◌++◌, some, min, ltb, ◌==◌, if◌then◌else◌, length, take, drop, arith, inl,
  inr, Bool-cases, All, length-append, length-take, Result, ok, err, diverged, ◌>>=◌, map_err,
}
use ipv_8_public_base_statio.Common.Bytes.{of_be16, of_be-to_be, to_be, u16}
use ipv_8_public_base_statio.Common.Words.{has_bit}
use ipv_8_public_base_statio.Codec.Header.{IPv8Header, attach_ext_headers, ext_total, wire_size}
use ipv_8_public_base_statio.Codec.Encode.{EncodeError, encode_base, encode_chain, encode_header}
use ipv_8_public_base_statio.Codec.Decode.{Decoded}
use ipv_8_public_base_statio.Codec.RoundTrip.{length-encode_base, length-encode_chain}
use ipv_8_public_base_statio.Codec.Fragment.{
  FragmentError, FragmentInfo, decode_err_from_encode, fragment_header, fragment_loop,
  not_a_valid_packet, parse_info, to_ext,
}

abbrev word : ℕ → Bool → ℕ
word o more = o % 8192 * 8 + (if more then 4 else 0)

abbrev read_word : ℕ → Bool → ℕ
read_word o more = of_be16 (word o more / 256 % 256) (word o more % 256)

read_word-offset : (o : ℕ) (more : Bool) → o < 8192 → read_word o more / 8 % 8192 ≡ o
read_word-offset o true h = omega arith
read_word-offset o false h = omega arith

read_word-more : (o : ℕ) (more : Bool) → o < 8192 → has_bit 4 (read_word o more) ≡ more
read_word-more o true h = ground arith
read_word-more o false h = ground arith

-- The fragment header is read back, when its identifier is a u32 and its offset has 13 bits.
pub parse_info-to_ext :
    (f : FragmentInfo) → f.id < 256 ^ 4 → f.offset < 8192 → parse_info (to_ext f) ≡ some f
unfolding parse_info to_ext to_be
parse_info-to_ext f hid hoff = λ i. some (record {
  id = of_be-to_be 4 f.id hid i;
  offset = read_word-offset f.offset f.more hoff i;
  more = read_word-more f.offset f.more hoff i;
})

-- What the encoder writes has 40 bytes and the extension chain.
length-encode_header :
    (h : IPv8Header) (n : ℕ) (buf : List ℕ)
    → encode_header h [] ≡ ok (n, buf)
    → length buf ≡ 40 + ext_total h.ext_headers
unfolding encode_header
length-encode_header h n buf e =
    let written : buf ≡ encode_base h ++ encode_chain h.ext_headers = ground arith in
    omega (
      arith,
      ap length written,
      length-append (encode_base h) (encode_chain h.ext_headers),
      length-encode_base h,
      length-encode_chain h.ext_headers,
    )

fragment_header-size :
    (h : IPv8Header) (id offset pos size : ℕ) (more : Bool)
    → ext_total (fragment_header h id offset pos size more).ext_headers
      ≤ 10 + ext_total h.ext_headers
unfolding fragment_header attach_ext_headers ext_total wire_size to_ext to_be
fragment_header-size h id offset pos size more = elim (Bool-cases (pos == 0)) [
  | inl start ↦ rw start (omega arith)
  | inr later ↦ rw later (omega arith)
]

-- Packets of at most `m` bytes.
abbrev pub Within : ℕ → List (List ℕ) → Type 0
Within m outs = All (λ o. length o ≤ m) outs

-- The parts of a round that succeeds.
pub record IsRound (enc : Result EncodeError (ℕ × List ℕ))
    (rest : Result FragmentError (List (List ℕ))) (slice : List ℕ) (outs : List (List ℕ))
    : Type 0 where
  pub n : ℕ
  pub buf : List ℕ
  pub more_outs : List (List ℕ)
  pub written : enc ≡ ok (n, buf)
  pub goes_on : rest ≡ ok more_outs
  pub outs_eq : outs ≡ (buf ++ slice) ∷ more_outs

abbrev pub round :
    Result EncodeError (ℕ × List ℕ)
    → Result FragmentError (List (List ℕ))
    → List ℕ
    → Result FragmentError (List (List ℕ))
round enc rest slice =
    map_err (λ e. not_a_valid_packet (decode_err_from_encode e)) enc >>= λ (n, buf).
    rest >>= λ outs. ok ((buf ++ slice) ∷ outs)

pub round-IsRound :
    (enc : Result EncodeError (ℕ × List ℕ)) (rest : Result FragmentError (List (List ℕ)))
    (slice : List ℕ) (outs : List (List ℕ))
    → round enc rest slice ≡ ok outs
    → IsRound enc rest slice outs
round-IsRound (err e) rest slice outs h = absurd (never h)
  where
    never : err (not_a_valid_packet (decode_err_from_encode e)) ≡ ok outs → ⊥
    never h = cc
round-IsRound diverged rest slice outs h = absurd (never h)
  where
    never : ◌≡◌ {A = Result FragmentError (List (List ℕ))} diverged (ok outs) → ⊥
    never h = cc
round-IsRound (ok (n, buf)) (err e) slice outs h = absurd (never h)
  where
    never : err e ≡ ok outs → ⊥
    never h = cc
round-IsRound (ok (n, buf)) diverged slice outs h = absurd (never h)
  where
    never : ◌≡◌ {A = Result FragmentError (List (List ℕ))} diverged (ok outs) → ⊥
    never h = cc
round-IsRound (ok (n, buf)) (ok more_outs) slice outs h = record {
  n = n;
  buf = buf;
  more_outs = more_outs;
  written = refl;
  goes_on = refl;
  outs_eq = same h;
}
  where
    same :
        ◌≡◌ {A = Result FragmentError (List (List ℕ))} (ok ((buf ++ slice) ∷ more_outs)) (ok outs)
        → outs ≡ (buf ++ slice) ∷ more_outs
    same h = cc

pub fragment_loop-Within :
    (fuel : ℕ) (d : Decoded) (chunk id offset pos m : ℕ) (outs : List (List ℕ))
    → 50 + ext_total d.header.ext_headers + chunk ≤ m
    → fragment_loop fuel d chunk id offset pos ≡ ok outs
    → Within m outs
unfolding fragment_loop
fragment_loop-Within zero d chunk id offset pos m outs fits e = absurd (never e)
  where
    never : ◌≡◌ {A = Result FragmentError (List (List ℕ))} diverged (ok outs) → ⊥
    never h = cc
fragment_loop-Within (suc f) d chunk id offset pos m outs fits e =
    let size : ℕ = min chunk (length d.payload - pos) in
    let more : Bool = ltb (pos + size) (length d.payload) in
    let slice : List ℕ = take size (drop pos d.payload) in
    let hdr : IPv8Header = fragment_header d.header id offset pos size more in
    let enc : Result EncodeError (ℕ × List ℕ) = encode_header hdr [] in
    let rest = fragment_loop f d chunk id (u16 (offset + size / 8)) (pos + size) in
    elim (Bool-cases (ltb pos (length d.payload))) [
      | inr over ↦ subst (Within m) (nothing (rw over at e)) tt
      | inl here ↦
          let r : IsRound enc rest slice outs = round-IsRound enc rest slice outs (rw here at e) in
          let long : length (r.buf ++ slice) ≤ m = omega (
            arith,
            length-append r.buf slice,
            length-encode_header hdr r.n r.buf r.written,
            fragment_header-size d.header id offset pos size more,
            length-take size (drop pos d.payload),
          ) in
          subst (Within m) (sym r.outs_eq) (
            long,
            fragment_loop-Within f d chunk id (u16 (offset + size / 8)) (pos + size) m r.more_outs
                fits r.goes_on,
          )
    ]
  where
    nothing : ◌≡◌ {A = Result FragmentError (List (List ℕ))} (ok []) (ok outs) → [] ≡ outs
    nothing h = cc
