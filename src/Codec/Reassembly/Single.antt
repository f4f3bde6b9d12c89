-- ===== src/Codec/Reassembly/Single.antt =====
-- The laws of single steps that the fragments of one packet share: their flags, the guards, and the
-- group after some bytes.
use ipv_8_public_base_statio.Common.{
  ℕ, ◌+◌, ◌*◌, ◌%◌, ◌≤◌, ◌≡◌, refl, ap, ◌∙◌, true, false, List, [], ◌∷◌, ◌++◌, none, some, ◌==◌,
  if◌then◌else◌, length, take, drop, ok, arith, not, ◌&&◌,
}
use ipv_8_public_base_statio.Common.Words.{has_bit, set_bit}
use ipv_8_public_base_statio.Codec.Header.{
  IPv8Header, ExtensionHeader, is_fragment, is_fragment_type,
}
use ipv_8_public_base_statio.Codec.Decode.{Decoded}
use ipv_8_public_base_statio.Codec.Fragment.{FragmentInfo, parse_info}
use ipv_8_public_base_statio.Codec.Reassembly.{
  Group, GroupKey, Reassembler, admit, advance, check_fragment, emit, find_chunk, insert_in,
  is_done, put_group, remove_chunk, remove_group, store, waiting,
}
use ipv_8_public_base_statio.Codec.Reassembly.Part.{plain_flags}

plain_flags-no_fragment : (f : ℕ) → has_bit 32 (plain_flags f) ≡ false
plain_flags-no_fragment f = ground arith

plain_flags-no_extension : (f : ℕ) → has_bit 64 (plain_flags f) ≡ false
plain_flags-no_extension f = ground arith

set-plain :
    (y : ℕ) → has_bit 32 y ≡ false → has_bit 64 y ≡ false → set_bit 32 (set_bit 64 y) ≡ y + 96
set-plain y h e = ground arith

plain-set : (y : ℕ) → has_bit 32 y ≡ false → has_bit 64 y ≡ false → plain_flags (y + 96) ≡ y
plain-set y h e = ground arith

-- The two flags that a fragment sets are the two that the reassembler clears.
pub plain_flags-fragment :
    (f : ℕ) → plain_flags (set_bit 32 (set_bit 64 (plain_flags f))) ≡ plain_flags f
plain_flags-fragment f =
    let h = plain_flags-no_fragment f in
    let e = plain_flags-no_extension f in
    ap plain_flags (set-plain (plain_flags f) h e) ∙ plain-set (plain_flags f) h e

-- The group after the first `pos` bytes.
abbrev pub group_at : Decoded → ℕ → ℕ → Group
group_at d created pos = record {
  orig_ext = if pos == 0 then none else some d.header.ext_headers;
  flags = plain_flags d.header.flags;
  version = d.header.version;
  min_compat_ver = d.header.min_compat_ver;
  hop_limit = d.header.hop_limit;
  src = d.header.src_addr;
  dst = d.header.dst_addr;
  chunks = [];
  pos = pos;
  total = none;
  payload = take pos d.payload;
  created = created;
}

pub check_as :
    (h : IPv8Header) (payload : List ℕ) (f : FragmentInfo) (first : ExtensionHeader)
    (others : List ExtensionHeader)
    → h.ext_headers ≡ first ∷ others
    → parse_info first ≡ some f
    → is_fragment h.flags ≡ true
    → is_fragment_type first.ext_type ≡ true
    → f.offset * 8 ≤ 65528
    → (f.more && not (length payload % 8 == 0)) ≡ false
    → check_fragment h payload ≡ ok f
unfolding check_fragment
check_as h payload f first others chain parsed flagged typed low even =
    rw (chain, check_fragment) (rw (parsed, flagged, typed) (ground arith))

pub advance_one :
    (g : Group) (bytes : List ℕ)
    → advance 1 (record g { chunks = (g.pos, bytes) ∷ [] })
      ≡ record g { chunks = []; payload = g.payload ++ bytes; pos = g.pos + length bytes }
unfolding advance find_chunk remove_chunk
advance_one g bytes = ground arith

pub insert_in_as :
    (r : Reassembler) (key : GroupKey) (g h st mv : Group) (hdr : IPv8Header) (payload : List ℕ)
    (f : FragmentInfo)
    → admit g f.more (f.offset * 8) (length payload) ≡ ok h
    → store h (drop 1 hdr.ext_headers) (f.offset * 8) payload ≡ (st, false)
    → advance (length st.chunks) st ≡ mv
    → insert_in r key g hdr payload f ≡ (
        if is_done mv
        then (record { groups = remove_group key r.groups }, emit mv)
        else (record { groups = put_group key mv r.groups }, waiting))
unfolding insert_in
insert_in_as r key g h st mv hdr payload f admitted kept moved =
    rw (admitted, insert_in) (rw (kept) (rw (moved) refl))
