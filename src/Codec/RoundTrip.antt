-- ===== src/Codec/RoundTrip.antt =====
-- What the encoder writes, the decoder reads back.
pub mod Repeated
use ipv_8_public_base_statio.Common.{
  ℕ, zero, suc, ◌+◌, ◌*◌, ◌/◌, ◌%◌, ◌≤◌, ◌<◌, ◌≡◌, ◌≢◌, refl, ap, sym, ◌∙◌, true, false, not, List,
  [], ◌∷◌, ◌++◌, length, is_empty, get_or, take, drop, contains, ltb, ok, err, arith, All, ◌⊎◌, inl,
  inr, append_assoc, ==_ne, le→ltb, drop-add, drop_at, drop-length_append, take-all, length-append,
}
use ipv_8_public_base_statio.Common.Bytes.{of_be16}
use ipv_8_public_base_statio.Codec.Address.{IsAddress}
use ipv_8_public_base_statio.Codec.Header.{
  IPv8Header, ExtensionHeader, wire, from_u8, ext_len, ext_total, first_wire, wire_size,
  has_extension, Fresh,
}
use ipv_8_public_base_statio.Codec.Encode.{encode, encode_chain, encode_base, check_header}
use ipv_8_public_base_statio.Codec.Decode.{
  decode, ext_loop, decode_chain, read_addr, ext_chain_cycle, DecodeError,
}
use ipv_8_public_base_statio.Codec.Decode.Chain.{ext_loop-step, more_at}

-- An extension header that `ExtensionHeader::new` makes of a type with its registered number.
pub record IsExt (e : ExtensionHeader) : Type 0 where
  pub registered : from_u8 (wire e.ext_type) ≡ e.ext_type
  pub not_end : wire e.ext_type ≢ 0
  pub units : length e.payload ≡ ext_len e * 8
  pub not_empty : ext_len e ≢ 0

-- The header's fields fit their widths.
pub record IsHeader (h : IPv8Header) : Type 0 where
  pub flags_u16 : h.flags < 65536
  pub payload_len_u16 : h.payload_len < 65536
  pub src_ok : IsAddress h.src_addr
  pub dst_ok : IsAddress h.dst_addr
  pub exts_ok : All IsExt h.ext_headers

ext_here :
    (buf : List ℕ) (cursor : ℕ) (e : ExtensionHeader) (es : List ExtensionHeader) (tail : List ℕ)
    → drop cursor buf ≡ encode_chain (e ∷ es) ++ tail
    → drop cursor buf ≡ first_wire es ∷ ext_len e ∷ (e.payload ++ (encode_chain es ++ tail))
unfolding encode_chain
ext_here buf cursor e es tail h =
    h ∙ ap (λ xs. first_wire es ∷ ext_len e ∷ xs) (append_assoc e.payload (encode_chain es) tail)

same_ext :
    (e : ExtensionHeader)
    → IsExt e
    → ◌≡◌ {A = ExtensionHeader}
        (record { ext_type = from_u8 (wire e.ext_type); payload = e.payload })
        e
same_ext e v = λ i. record { ext_type = v.registered i; payload = e.payload }

ext_loop-encode_chain :
    (fuel : ℕ) (e : ExtensionHeader) (es : List ExtensionHeader) (buf : List ℕ) (cursor idx : ℕ)
    (seen : List ℕ) (acc : List ExtensionHeader) (tail : List ℕ)
    → drop cursor buf ≡ encode_chain (e ∷ es) ++ tail
    → All IsExt (e ∷ es)
    → Fresh seen (e ∷ es)
    → idx + length (e ∷ es) ≤ 64
    → length (e ∷ es) ≤ fuel
    → ext_loop fuel buf cursor (wire e.ext_type) idx seen acc
      ≡ ok (acc ++ (e ∷ es), cursor + ext_total (e ∷ es))
unfolding ext_total wire_size first_wire
ext_loop-encode_chain zero e es buf cursor idx seen acc tail at v d room fuel = absurd (omega arith)
ext_loop-encode_chain (suc f) e [] buf cursor idx seen acc tail at v d room fuel =
    ext_loop-step buf cursor 0 (ext_len e) e.payload (encode_chain [] ++ tail)
      (ext_here buf cursor e [] tail at) v.0.units f (wire e.ext_type) idx seen acc d.0
      v.0.not_empty (omega arith)
    ∙ rw (same_ext e v.0) (ground (arith, v.0.units))
ext_loop-encode_chain (suc f) e (e' ∷ es) buf cursor idx seen acc tail at v d room fuel =
    ext_loop-step buf cursor (wire e'.ext_type) (ext_len e) e.payload
      (encode_chain (e' ∷ es) ++ tail) (ext_here buf cursor e (e' ∷ es) tail at) v.0.units f
      (wire e.ext_type) idx seen acc d.0 v.0.not_empty (omega arith)
    ∙ rw (==_ne (wire e'.ext_type) 0 v.1.0.not_end, same_ext e v.0)
        (ext_loop-encode_chain f e' es buf (cursor + (2 + ext_len e * 8)) (idx + 1)
            (seen ++ (wire e.ext_type ∷ [])) (acc ++ (e ∷ [])) tail
            (more_at buf cursor (wire e'.ext_type) (ext_len e) e.payload
              (encode_chain (e' ∷ es) ++ tail) (ext_here buf cursor e (e' ∷ es) tail at) v.0.units)
            v.1 d.1 (omega arith) (omega arith)
          ∙ ground (arith, v.0.units, append_assoc acc (e ∷ []) (e' ∷ es)))

decode_chain-encode_chain :
    (exts : List ExtensionHeader) (buf tail : List ℕ)
    → drop 40 buf ≡ encode_chain exts ++ tail
    → All IsExt exts
    → Fresh [] exts
    → length exts ≤ 64
    → decode_chain buf (first_wire exts) ≡ ok (exts, 40 + ext_total exts)
unfolding decode_chain first_wire ext_total
decode_chain-encode_chain [] buf tail at v d room = refl
decode_chain-encode_chain (e ∷ es) buf tail at v d room =
    rw (==_ne (wire e.ext_type) 0 v.0.not_end)
      (ext_loop-encode_chain 65 e es buf 40 0 [] [] tail at v d (omega arith) (omega arith))

-- What a header has that the encoder accepts.
pub record Accepted (h : IPv8Header) : Type 0 where
  pub version_eq : h.version ≡ 8
  pub compat_le : h.min_compat_ver ≤ 15
  pub reserved_zero : h.flags / 128 ≡ 0
  pub payload_len_le : h.payload_len ≤ 65467
  pub chain_le : length h.ext_headers ≤ 64
  pub total_le : 40 + ext_total h.ext_headers + h.payload_len ≤ 65507
  pub next_eq : h.next_header ≡ first_wire h.ext_headers
  pub flag_eq : has_extension h.flags ≡ not (is_empty h.ext_headers)

pub check_header-Accepted : (h : IPv8Header) {u : Unit {0}} → check_header h ≡ ok u → Accepted h
unfolding check_header
check_header-Accepted h e = ground arith

encode_parts :
    (h : IPv8Header) (payload : List ℕ) {out : List ℕ}
    → encode h payload ≡ ok out
    → (check_header h ≡ ok tt)
      × (length payload ≡ h.payload_len)
      × (out ≡ (encode_base h ++ encode_chain h.ext_headers) ++ payload)
unfolding encode
encode_parts h payload e = ground arith

pub encode-eq-ok :
    (h : IPv8Header) (payload : List ℕ) {out : List ℕ}
    → encode h payload ≡ ok out
    → Accepted h
      × (length payload ≡ h.payload_len)
      × (out ≡ (encode_base h ++ encode_chain h.ext_headers) ++ payload)
encode-eq-ok h payload e =
    let (checked, size, written) = encode_parts h payload e in
    (check_header-Accepted h checked, size, written)

-- The decoder on a buffer whose first 40 bytes and chain are known.
module _ (buf : List ℕ) (h : IPv8Header) (payload : List ℕ) (v : IsHeader h) (a : Accepted h)
    (e0 : get_or buf 0 0 ≡ h.version * 16 + h.min_compat_ver)
    (e1 : of_be16 (get_or buf 1 0) (get_or buf 2 0) ≡ h.flags)
    (e3 : of_be16 (get_or buf 3 0) (get_or buf 4 0) ≡ h.payload_len)
    (e5 : get_or buf 5 0 ≡ h.hop_limit) (e6 : get_or buf 6 0 ≡ h.next_header)
    (src : read_addr (take 16 (drop 7 buf)) ≡ h.src_addr)
    (dst : read_addr (take 16 (drop 23 buf)) ≡ h.dst_addr)
    (size : 40 + ext_total h.ext_headers + h.payload_len ≤ length buf)
    (chain : decode_chain buf h.next_header ≡ ok (h.ext_headers, 40 + ext_total h.ext_headers))
    (rest : take h.payload_len (drop (40 + ext_total h.ext_headers) buf) ≡ payload) where
  decode_of_parts : decode buf ≡ ok (record { header = h; payload = payload })
  unfolding decode
  decode_of_parts =
      let long : ltb (length buf) 40 ≡ false = le→ltb (length buf) 40 (omega arith) in
      let ver : get_or buf 0 0 / 16 ≡ 8 = omega (arith, a.version_eq, a.compat_le) in
      let compat : get_or buf 0 0 % 16 ≡ h.min_compat_ver =
        omega (arith, a.version_eq, a.compat_le) in
      rw (long, ver, e1, e3, le→ltb 65467 h.payload_len a.payload_len_le, e6, chain) (ground arith)

base_read :
    (h : IPv8Header) (tail : List ℕ)
    → IsHeader h
    → Accepted h
    → (get_or (encode_base h ++ tail) 0 0 ≡ h.version * 16 + h.min_compat_ver)
      × (of_be16 (get_or (encode_base h ++ tail) 1 0) (get_or (encode_base h ++ tail) 2 0)
          ≡ h.flags)
      × (of_be16 (get_or (encode_base h ++ tail) 3 0) (get_or (encode_base h ++ tail) 4 0)
          ≡ h.payload_len)
unfolding encode_base
base_read h tail v a = (
  omega (arith, a.version_eq, a.compat_le),
  omega (arith, v.flags_u16),
  omega (arith, v.payload_len_u16),
)

read_src :
    (h : IPv8Header) (tail : List ℕ)
    → IsAddress h.src_addr
    → read_addr (take 16 (drop 7 (encode_base h ++ tail))) ≡ h.src_addr
unfolding encode_base read_addr
read_src h tail v = ground arith

read_dst :
    (h : IPv8Header) (tail : List ℕ)
    → IsAddress h.dst_addr
    → read_addr (take 16 (drop 23 (encode_base h ++ tail))) ≡ h.dst_addr
unfolding encode_base read_addr
read_dst h tail v = ground arith

pub length-encode_base : (h : IPv8Header) → length (encode_base h) ≡ 40
unfolding encode_base
length-encode_base h = refl

base_rest :
    (h : IPv8Header) (tail : List ℕ)
    → (get_or (encode_base h ++ tail) 5 0 ≡ h.hop_limit)
      × (get_or (encode_base h ++ tail) 6 0 ≡ h.next_header)
      × (drop 40 (encode_base h ++ tail) ≡ tail)
unfolding encode_base
base_rest h tail = (refl, refl, refl)

pub length-encode_chain : (es : List ExtensionHeader) → length (encode_chain es) ≡ ext_total es
unfolding encode_chain ext_total wire_size
length-encode_chain [] = refl
length-encode_chain (e ∷ es) =
    omega (arith, length-append e.payload (encode_chain es), length-encode_chain es)

-- The decoder on a header and chain that the encoder wrote, with whatever follows them: the payload
-- is as much of that as the header says.
pub decode-head :
    (h : IPv8Header) (rest : List ℕ)
    → IsHeader h
    → Fresh [] h.ext_headers
    → Accepted h
    → h.payload_len ≤ length rest
    → decode ((encode_base h ++ encode_chain h.ext_headers) ++ rest)
      ≡ ok (record { header = h; payload = take h.payload_len rest })
decode-head h rest v fresh a enough =
    let tail : List ℕ = encode_chain h.ext_headers ++ rest in
    let (r0, r1, r3) = base_read h tail v a in
    let (r5, r6, after) = base_rest h tail in
    rw (append_assoc (encode_base h) (encode_chain h.ext_headers) rest) (
      decode_of_parts (encode_base h ++ tail) h (take h.payload_len rest) v a r0 r1 r3 r5 r6
        (read_src h tail v.src_ok) (read_dst h tail v.dst_ok)
        (omega (
          arith,
          length-append (encode_base h) tail,
          length-append (encode_chain h.ext_headers) rest,
          length-encode_base h,
          length-encode_chain h.ext_headers,
        ))
        (ap (decode_chain (encode_base h ++ tail)) a.next_eq
          ∙ decode_chain-encode_chain h.ext_headers (encode_base h ++ tail) rest after v.exts_ok
              fresh a.chain_le)
        (ap (take h.payload_len) (
          drop-add 40 (ext_total h.ext_headers) (encode_base h ++ tail)
          ∙ ap (drop (ext_total h.ext_headers)) after
          ∙ drop_at tail (sym (length-encode_chain h.ext_headers))
          ∙ drop-length_append (encode_chain h.ext_headers) rest)))

-- Decoding what `encode` wrote gives back the header and the payload, for every header whose fields
-- fit their widths and in whose extension chain no type occurs twice.
pub decode-encode :
    (h : IPv8Header) (payload out : List ℕ)
    → IsHeader h
    → Fresh [] h.ext_headers
    → encode h payload ≡ ok out
    → decode out ≡ ok (record { header = h; payload = payload })
decode-encode h payload out v fresh e =
    let (a, size, written) = encode-eq-ok h payload e in
    ap decode written
    ∙ decode-head h payload v fresh a (omega (arith, size))
    ∙ ap (λ bytes. ok (record { header = h; payload = bytes }))
        (take-all h.payload_len payload (omega (arith, size)))
