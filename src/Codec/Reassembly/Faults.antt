-- ===== src/Codec/Reassembly/Faults.antt =====
-- A way in which the reassembler fails on fragments from the network
-- (src/core/ipv8-codec/src/fragment.rs).
use ipv_8_public_base_statio.Common.{
  ℕ, ◌+◌, ◌^◌, ◌≤◌, ◌<◌, ◌≡◌, refl, ap, ◌∙◌, true, false, List, [], ◌∷◌, none, some, length,
  is_empty, inl, inr, Bool-cases, ok, err, arith, ==_refl,
}
use ipv_8_public_base_statio.Codec.Header.{
  IPv8Header, ExtensionHeader, is_fragment, reserved_ok, attach_ext_headers,
}
use ipv_8_public_base_statio.Common.Words.{set_bit, clear_bit}
use ipv_8_public_base_statio.Codec.Encode.{check_header, encode_header, reserved_bits}
use ipv_8_public_base_statio.Codec.Fragment.{FragmentInfo, to_ext}
use ipv_8_public_base_statio.Codec.Fragment.Round.{parse_info-to_ext}
use ipv_8_public_base_statio.Codec.Reassembly.{
  Group, admit, check_fragment, emit, find_chunk, find_group, insert, insert_in, is_done, key_of,
  new_group, panicked, put_chunk, reap, remove_group, rebuilt_header, store,
}
use ipv_8_public_base_statio.Codec.Reassembly.Part.{plain_flags}
use ipv_8_public_base_statio.Codec.Reassembly.Single.{advance_one, check_as, insert_in_as}

encode_header-reserved :
    (h : IPv8Header)
    → h.version ≡ 8
    → h.min_compat_ver ≤ 15
    → reserved_ok h.flags ≡ false
    → encode_header h [] ≡ err reserved_bits
unfolding encode_header check_header
encode_header-reserved h v c bad = ground arith

reserved-set_bit : (f : ℕ) → reserved_ok f ≡ false → reserved_ok (set_bit 64 f) ≡ false
reserved-set_bit f h = ground arith

reserved-clear_bit : (f : ℕ) → reserved_ok f ≡ false → reserved_ok (clear_bit 64 f) ≡ false
reserved-clear_bit f h = ground arith

reserved-plain_flags : (f : ℕ) → reserved_ok f ≡ false → reserved_ok (plain_flags f) ≡ false
reserved-plain_flags f h = ground arith

rebuilt_header-reserved :
    (g : Group) (t : ℕ)
    → reserved_ok g.flags ≡ false
    → reserved_ok (rebuilt_header g t).flags ≡ false
unfolding rebuilt_header attach_ext_headers
rebuilt_header-reserved g t bad =
    elim (Bool-cases (is_empty (elim g.orig_ext [ none ↦ [] | some chain ↦ chain ]))) [
      | inl empty ↦ rw empty (reserved-clear_bit g.flags bad)
      | inr chained ↦ rw chained (reserved-set_bit g.flags bad)
    ]

rebuilt_refused :
    (g : Group) (t : ℕ)
    → g.version ≡ 8
    → g.min_compat_ver ≤ 15
    → reserved_ok g.flags ≡ false
    → encode_header (rebuilt_header g t) [] ≡ err reserved_bits
unfolding rebuilt_header attach_ext_headers
rebuilt_refused g t v c bad =
    encode_header-reserved (rebuilt_header g t) v c (rebuilt_header-reserved g t bad)

emit-reserved :
    (g : Group)
    → g.version ≡ 8
    → g.min_compat_ver ≤ 15
    → reserved_ok g.flags ≡ false
    → emit g ≡ panicked reserved_bits
unfolding emit
emit-reserved g v c bad =
    rw (rebuilt_refused g (elim g.total [ none ↦ 0 | some t ↦ t ]) v c bad, emit) refl

module _ (now : ℕ) (hdr : IPv8Header) (payload : List ℕ) (id : ℕ) (others : List ExtensionHeader)
    (chain : hdr.ext_headers ≡ to_ext (record { id = id; offset = 0; more = false }) ∷ others)
    (flagged : is_fragment hdr.flags ≡ true) (small_id : id < 256 ^ 4)
    (fits : length payload ≤ 65467) where
  abbrev only : FragmentInfo
  only = record { id = id; offset = 0; more = false }

  abbrev finished : Group
  finished = record (new_group now hdr) {
    total = some (length payload);
    orig_ext = some others;
    payload = payload;
    pos = length payload;
  }

  check_fragment-only : check_fragment hdr payload ≡ ok only
  unfolding to_ext
  check_fragment-only =
      check_as hdr payload only (to_ext only) others chain
        (parse_info-to_ext only small_id (omega arith)) flagged refl (omega arith) refl

  abbrev stored : Group
  stored = record finished { payload = []; pos = 0; chunks = (0, payload) ∷ [] }

  insert_in-only :
      insert_in (record { groups = [] }) (key_of hdr only) (new_group now hdr) hdr payload only
      ≡ (record { groups = remove_group (key_of hdr only) [] }, emit finished)
  unfolding new_group admit store put_chunk find_chunk is_done
  insert_in-only =
      insert_in_as (record { groups = [] }) (key_of hdr only) (new_group now hdr)
        (record (new_group now hdr) { total = some (length payload) }) stored finished hdr payload
        only (ground arith) (rw chain refl)
        (advance_one (record finished { payload = []; pos = 0 }) payload
          ∙ ap (λ p. record finished { pos = p }) no_shift)
      ∙ rw (==_refl (length payload)) refl
    where
      no_shift : 0 + length payload ≡ length payload
      no_shift = omega arith

  insert-only : (insert now (record { groups = [] }) hdr payload).1 ≡ emit finished
  unfolding insert reap find_group
  insert-only = rw (check_fragment-only, insert) (ap (λ x. x.1) insert_in-only)

-- A fragment that is a whole packet by itself and carries a reserved flag bit, which the decoder
-- lets pass, makes an empty reassembler panic: the encoder refuses the header that it rebuilds.
pub insert-panicked :
    (now : ℕ) (hdr : IPv8Header) (payload : List ℕ) (id : ℕ) (others : List ExtensionHeader)
    → hdr.ext_headers ≡ to_ext (record { id = id; offset = 0; more = false }) ∷ others
    → is_fragment hdr.flags ≡ true
    → id < 256 ^ 4
    → length payload ≤ 65467
    → hdr.version ≡ 8
    → hdr.min_compat_ver ≤ 15
    → reserved_ok hdr.flags ≡ false
    → (insert now (record { groups = [] }) hdr payload).1 ≡ panicked reserved_bits
unfolding new_group
insert-panicked now hdr payload id others chain flagged small fits v c bad =
    insert-only now hdr payload id others chain flagged small fits
    ∙ emit-reserved (finished now hdr payload id others chain flagged small fits) v c
        (reserved-plain_flags hdr.flags bad)
