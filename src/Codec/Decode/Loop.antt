-- ===== src/Codec/Decode/Loop.antt =====
-- The loop over the extension chain (src/core/ipv8-codec/src/decode.rs).
use ipv_8_public_base_statio.Common.{
  ℕ, zero, suc, ◌+◌, ◌*◌, ◌≤◌, ◌<◌, ◌≡◌, ◌≢◌, refl, ap, ◌∙◌, false, List, [], ◌∷◌, ◌++◌, length,
  is_empty, get_or, take, drop, contains, ◌==◌, ok, diverged, arith, All, append_assoc,
  length-append, length-take, length-drop, ◌⊎◌, inl, inr, Bool-cases,
}
use ipv_8_public_base_statio.Codec.Header.{
  ExtensionHeader, wire, from_u8, ext_total, wire_size, first_wire, Fresh,
}
use ipv_8_public_base_statio.Codec.Decode.{decode, ext_loop, decode_chain}

wire-from_u8 : (v : ℕ) → wire (from_u8 v) ≡ v
unfolding wire from_u8
wire-from_u8 v = ground arith

ext_loop-ne-diverged :
    (fuel : ℕ) (buf : List ℕ) (cursor t idx : ℕ) (seen : List ℕ) (acc : List ExtensionHeader)
    → idx ≤ 64
    → 65 ≤ idx + fuel
    → ext_loop fuel buf cursor t idx seen acc ≢ diverged
unfolding ext_loop
ext_loop-ne-diverged zero buf cursor t idx seen acc h k = absurd (omega arith)
ext_loop-ne-diverged (suc f) buf cursor t idx seen acc h k = ground (
  arith,
  ext_loop-ne-diverged f buf (cursor + (2 + get_or buf (cursor + 1) 0 * 8)) (get_or buf cursor 0)
      (idx + 1) (seen ++ (t ∷ []))
      (acc
        ++ (record {
          ext_type = from_u8 t;
          payload = take (get_or buf (cursor + 1) 0 * 8) (drop (cursor + 2) buf);
        }
            ∷ [])),
)

decode_chain-ne-diverged : (buf : List ℕ) (t : ℕ) → decode_chain buf t ≢ diverged
unfolding decode_chain
decode_chain-ne-diverged buf t = elim (Bool-cases (t == 0)) [
  | inl e ↦ rw e (λ p. cc)
  | inr e ↦ rw e (ext_loop-ne-diverged 65 buf 40 t 0 [] [] (omega arith) (omega arith))
]

-- The loop over the extension chain ends within its fuel on every buffer.
pub decode-ne-diverged : (buf : List ℕ) → decode buf ≢ diverged
unfolding decode
decode-ne-diverged buf e = ground (arith, decode_chain-ne-diverged buf (get_or buf 6 0))

-- A chain whose headers have 8 to 2040 bytes of payload, in units of 8.
pub record HasUnits (e : ExtensionHeader) : Type 0 where
  pub count : ℕ
  pub count_pos : 0 < count
  pub exact : length e.payload ≡ count * 8

module _ (f : ℕ) (buf : List ℕ) (cursor t idx : ℕ) (seen : List ℕ)
    (acc : List ExtensionHeader) where
  abbrev pub len_here : ℕ
  len_here = get_or buf (cursor + 1) 0

  abbrev pub ext_here : ExtensionHeader
  ext_here = record { ext_type = from_u8 t; payload = take (len_here * 8) (drop (cursor + 2) buf) }

  -- What a round that does not fail has found, and how the loop goes on.
  pub ext_loop-round :
      {exts : List ExtensionHeader} {end : ℕ}
      → ext_loop (suc f) buf cursor t idx seen acc ≡ ok (exts, end)
      → (contains seen t ≡ false)
        × (cursor + 2 + len_here * 8 ≤ length buf)
        × (0 < len_here)
        × (idx + 1 ≤ 64)
        × (((get_or buf cursor 0 ≡ 0)
              × (exts ≡ acc ++ (ext_here ∷ []))
              × (end ≡ cursor + (2 + len_here * 8)))
            ⊎ ((get_or buf cursor 0 ≢ 0)
                × (ext_loop f buf
                      (cursor + (2 + len_here * 8))
                      (get_or buf cursor 0)
                      (idx + 1)
                      (seen ++ (t ∷ []))
                      (acc ++ (ext_here ∷ []))
                    ≡ ok (exts, end))))
  unfolding ext_loop
  ext_loop-round e = ground arith

-- What the loop appends to the chain read before, and where it stops.
pub record IsRead (buf : List ℕ) (cursor t : ℕ) (seen : List ℕ) (acc exts : List ExtensionHeader)
    (end : ℕ) : Type 0 where
  pub new : List ExtensionHeader
  pub appended : exts ≡ acc ++ new
  pub bounded : length exts ≤ 64
  pub end_eq : end ≡ cursor + ext_total new
  pub end_le : end ≤ length buf
  pub fresh : Fresh seen new
  pub starts : first_wire new ≡ t
  pub some_read : is_empty new ≡ false
  pub units : All HasUnits new

length-payload_here :
    (buf : List ℕ) (cursor n : ℕ)
    → cursor + 2 + n * 8 ≤ length buf
    → length (take (n * 8) (drop (cursor + 2) buf)) ≡ n * 8
length-payload_here buf cursor n h =
    omega (arith, length-take (n * 8) (drop (cursor + 2) buf), length-drop (cursor + 2) buf)

pub ext_loop-IsRead :
    (fuel : ℕ) (buf : List ℕ) (cursor t idx : ℕ) (seen : List ℕ) (acc : List ExtensionHeader)
    (exts : List ExtensionHeader) (end : ℕ)
    → length acc ≡ idx
    → ext_loop fuel buf cursor t idx seen acc ≡ ok (exts, end)
    → IsRead buf cursor t seen acc exts end
unfolding first_wire ext_total wire_size
ext_loop-IsRead zero buf cursor t idx seen acc exts end n e = absurd (never e)
  where
    never : ext_loop 0 buf cursor t idx seen acc ≡ ok (exts, end) → ⊥
    never e = unfold ext_loop in cc
ext_loop-IsRead (suc f) buf cursor t idx seen acc exts end n e =
    let (new_type, room, pos, count, next) = ext_loop-round f buf cursor t idx seen acc e in
    let k : ℕ = get_or buf (cursor + 1) 0 in
    let x : ExtensionHeader = ext_here f buf cursor t idx seen acc in
    let size : length x.payload ≡ k * 8 = length-payload_here buf cursor k room in
    let unit : HasUnits x = record { count = k; count_pos = pos; exact = size } in
    elim next [
      | inl (last, all, stop) ↦ record {
        new = x ∷ [];
        appended = all;
        bounded = omega (arith, ap length all, length-append acc (x ∷ []));
        end_eq = omega (arith, size, stop);
        end_le = omega (arith, stop);
        fresh = (rw (wire-from_u8 t) new_type, tt);
        starts = wire-from_u8 t;
        some_read = refl;
        units = (unit, tt);
      }
      | inr (more, rest) ↦
          let r =
            ext_loop-IsRead f buf (cursor + (2 + k * 8)) (get_or buf cursor 0) (idx + 1)
              (seen ++ (t ∷ [])) (acc ++ (x ∷ [])) exts end
              (omega (arith, length-append acc (x ∷ []))) rest in
          record {
            new = x ∷ r.new;
            appended = r.appended ∙ append_assoc acc (x ∷ []) r.new;
            bounded = r.bounded;
            end_eq = omega (arith, r.end_eq, size);
            end_le = r.end_le;
            fresh = (rw (wire-from_u8 t) new_type, rw (wire-from_u8 t) r.fresh);
            starts = wire-from_u8 t;
            some_read = refl;
            units = (unit, r.units);
          }
    ]
