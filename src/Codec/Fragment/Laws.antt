-- ===== src/Codec/Fragment/Laws.antt =====
-- The fragmenter ends, and keeps its packets within the limit
-- (src/core/ipv8-codec/src/fragment.rs).
use ipv_8_public_base_statio.Common.{
  ℕ, zero, suc, ◌+◌, ◌-◌, ◌*◌, ◌/◌, ◌≤◌, ◌<◌, ◌≡◌, refl, sym, subst, Bool, List, [], ◌∷◌, min, ltb,
  length, take, drop, arith, inl, inr, Bool-cases, ◌⊎◌, Result, ok, err, diverged, Result-cases,
  Result-fails, ◌≢◌, ltb→lt,
}
use ipv_8_public_base_statio.Common.Bytes.{u16}
use ipv_8_public_base_statio.Codec.Header.{IPv8Header, ext_total}
use ipv_8_public_base_statio.Codec.Encode.{EncodeError, encode_header, check_header}
use ipv_8_public_base_statio.Codec.Decode.{Decoded, decode}
use ipv_8_public_base_statio.Codec.Decode.Loop.{decode-ne-diverged}
use ipv_8_public_base_statio.Codec.Fragment.{
  FragmentError, fragment_header, fragment_loop, fragment_packet,
}
use ipv_8_public_base_statio.Codec.Fragment.Round.{Within, fragment_loop-Within, round}

-- The guards of `fragment_packet` that a packet has passed when it is cut.
pub fragment_cut :
    (packet : List ℕ) (d : Decoded) (m id : ℕ) (outs : List (List ℕ))
    → decode packet ≡ ok d
    → fragment_packet packet m id ≡ ok outs
    → ((length packet ≤ m) × (outs ≡ packet ∷ []))
      ⊎ ((8 ≤ (m - (50 + ext_total d.header.ext_headers)) / 8 * 8)
          × (fragment_loop
                (suc (length d.payload))
                d
                ((m - (50 + ext_total d.header.ext_headers)) / 8 * 8)
                id
                0
                0
              ≡ ok outs))
unfolding fragment_packet
fragment_cut packet d m id outs e h = ground arith

fragment_undecoded :
    (packet : List ℕ) (m id : ℕ) (outs : List (List ℕ))
    → ((d : Decoded) → decode packet ≢ ok d)
    → fragment_packet packet m id ≢ ok outs
unfolding fragment_packet
fragment_undecoded packet m id outs none_read h = elim (Result-fails (decode packet) none_read) [
  | inl (e, bad) ↦ ground arith
  | inr bad ↦ ground arith
]

-- Every packet that the fragmenter returns, the fragments as well as a packet that is small enough
-- to stay whole, has at most `m` bytes, the limit that the caller gave.
pub fragment_packet-Within :
    (packet : List ℕ) (m id : ℕ) (outs : List (List ℕ))
    → fragment_packet packet m id ≡ ok outs
    → Within m outs
fragment_packet-Within packet m id outs h = elim (Result-cases (decode packet)) [
  | inr none_read ↦ absurd (fragment_undecoded packet m id outs none_read h)
  | inl (d, e) ↦ elim (fragment_cut packet d m id outs e h) [
    | inl (small, whole) ↦ subst (Within m) (sym whole) (small, tt)
    | inr (room, cut) ↦
        fragment_loop-Within (suc (length d.payload)) d
          ((m - (50 + ext_total d.header.ext_headers)) / 8 * 8) id 0 0 m outs (omega arith) cut
  ]
]

encode_header-ne-diverged : (h : IPv8Header) → encode_header h [] ≢ diverged
unfolding encode_header check_header
encode_header-ne-diverged h e = ground arith

round-ne-diverged :
    (enc : Result EncodeError (ℕ × List ℕ)) (rest : Result FragmentError (List (List ℕ)))
    (slice : List ℕ)
    → enc ≢ diverged
    → rest ≢ diverged
    → round enc rest slice ≢ diverged
round-ne-diverged (err e) rest slice he hr h = cc
round-ne-diverged diverged rest slice he hr h = he refl
round-ne-diverged (ok (n, buf)) (err e) slice he hr h = cc
round-ne-diverged (ok (n, buf)) diverged slice he hr h = hr refl
round-ne-diverged (ok (n, buf)) (ok outs) slice he hr h = cc

fragment_loop-ne-diverged :
    (fuel : ℕ) (d : Decoded) (chunk id offset pos : ℕ)
    → 8 ≤ chunk
    → pos ≤ length d.payload
    → length d.payload < pos + fuel
    → fragment_loop fuel d chunk id offset pos ≢ diverged
unfolding fragment_loop
fragment_loop-ne-diverged zero d chunk id offset pos big inside left e = absurd (omega arith)
fragment_loop-ne-diverged (suc f) d chunk id offset pos big inside left e =
    let size : ℕ = min chunk (length d.payload - pos) in
    let more : Bool = ltb (pos + size) (length d.payload) in
    let enc : Result EncodeError (ℕ × List ℕ) =
      encode_header (fragment_header d.header id offset pos size more) [] in
    let rest = fragment_loop f d chunk id (u16 (offset + size / 8)) (pos + size) in
    elim (Bool-cases (ltb pos (length d.payload))) [
      | inr over ↦ ended (rw over at e)
      | inl here ↦
          round-ne-diverged enc rest (take size (drop pos d.payload))
            (encode_header-ne-diverged (fragment_header d.header id offset pos size more))
            (fragment_loop-ne-diverged f d chunk id (u16 (offset + size / 8)) (pos + size) big
              (omega arith) (omega (arith, ltb→lt pos (length d.payload) here)))
            (rw here at e)
    ]
  where
    ended : ◌≡◌ {A = Result FragmentError (List (List ℕ))} (ok []) diverged → ⊥
    ended h = cc

-- The fragmenter ends on every packet, limit and identifier.
pub fragment_packet-ne-diverged :
    (packet : List ℕ) (m id : ℕ) → fragment_packet packet m id ≢ diverged
unfolding fragment_packet
fragment_packet-ne-diverged packet m id e = elim (Result-cases (decode packet)) [
  | inl (d, read) ↦
      let chunk : ℕ = (m - (50 + ext_total d.header.ext_headers)) / 8 * 8 in
      let loop = fragment_loop-ne-diverged (suc (length d.payload)) d chunk id 0 0 in
      ground (arith, read, loop)
  | inr none_read ↦ elim (Result-fails (decode packet) none_read) [
    | inl (x, bad) ↦ ground arith
    | inr bad ↦ decode-ne-diverged packet bad
  ]
]
