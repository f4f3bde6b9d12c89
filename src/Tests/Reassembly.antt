-- ===== src/Tests/Reassembly.antt =====
-- The reassembler at concrete fragments.
use ipv_8_public_base_statio.Common.{
  ℕ, ◌+◌, ◌≤◌, ◌≡◌, ◌++◌, refl, List, [], ◌∷◌, ok, arith, replicate, length, none, false, ltb, ◌*◌,
  subst, sym, ◌∙◌, Result,
}
use ipv_8_public_base_statio.Common.Bytes.{of_be, of_be_from, to_be}
use ipv_8_public_base_statio.Codec.Address.{to_bytes, write_to}
use ipv_8_public_base_statio.Codec.Header.{
  IPv8Header, ext_len, ext_total, first_wire, wire, wire_size,
}
use ipv_8_public_base_statio.Codec.Encode.{
  check_header, encode, encode_base, encode_chain, encode_header, reserved_bits,
}
use ipv_8_public_base_statio.Codec.Decode.{Decoded}
use ipv_8_public_base_statio.Codec.RoundTrip.{IsHeader}
use ipv_8_public_base_statio.Codec.Fragment.{FragmentInfo, parse_info, to_ext}
use ipv_8_public_base_statio.Codec.Reassembly.{
  GroupKey, Reassembler, complete, find_group, insert, key_of, panicked, waiting, check_fragment,
  ReassemblyError,
}
use ipv_8_public_base_statio.Codec.Reassembly.Bounds.{insert-bound}
use ipv_8_public_base_statio.Codec.Reassembly.Faults.{insert-panicked}
use ipv_8_public_base_statio.Codec.Reassembly.History.{
  Arrival, Belongs, Harmless, after, insert-Harmless,
}
use ipv_8_public_base_statio.Codec.Reassembly.Calls.{feed}
use ipv_8_public_base_statio.Codec.Reassembly.Part.{IsFragmentOf}
use ipv_8_public_base_statio.Codec.Reassembly.RoundTrip.{feed-fragment_packet}
use ipv_8_public_base_statio.Tests.Codec.{addr, addr-IsAddress, plain, plain_cut, plain_fragments}

abbrev pub header : IPv8Header
header = record {
  version = 8;
  min_compat_ver = 0;
  flags = 0;
  payload_len = 24;
  hop_limit = 64;
  next_header = 0;
  src_addr = addr;
  dst_addr = addr;
  ext_headers = [];
}

abbrev pub payload : List ℕ
payload = replicate 8 1 ++ (replicate 8 2 ++ replicate 8 3)

pub header-IsHeader : IsHeader header
header-IsHeader = record {
  flags_u16 = omega arith;
  payload_len_u16 = omega arith;
  src_ok = addr-IsAddress;
  dst_ok = addr-IsAddress;
  exts_ok = tt;
}

pub plain_written : encode header payload ≡ ok plain
unfolding encode encode_header encode_base encode_chain check_header write_to first_wire wire
    ext_len ext_total wire_size
plain_written = refl

abbrev empty : Reassembler
empty = record { groups = [] }

empty_missing : (k : GroupKey) → find_group k [] ≡ none
unfolding find_group
empty_missing k = refl

feed-fragment_packet_example :
    (r' : Reassembler) × (feed (λ i. 5) 0 empty waiting plain_fragments ≡ ok (r', complete plain))
feed-fragment_packet_example =
    feed-fragment_packet header payload plain 58 9 plain_fragments (λ i. 5) empty header-IsHeader tt
      refl plain_written (omega arith) (omega arith) plain_cut (λ i. omega arith) (empty_missing _)
      (omega arith)

insert-bound_example : length (insert 7 empty header payload).0.groups ≤ 64
insert-bound_example = insert-bound 7 empty header payload (omega arith)

abbrev info : FragmentInfo
info = record { id = 9; offset = 0; more = false }

-- A packet in one fragment, with the reserved bit 7 of the flags.
abbrev reserved : IPv8Header
reserved = record header { flags = 224; next_header = 6; ext_headers = to_ext info ∷ [] }

insert-panicked_example : (insert 7 empty reserved payload).1 ≡ panicked reserved_bits
insert-panicked_example =
    insert-panicked 7 reserved payload 9 [] refl refl (omega arith) (omega arith) refl (omega arith)
      refl

-- The fragment of the packet at `units`, with 8 bytes.
abbrev piece : ℕ → FragmentInfo
piece units = record { id = 9; offset = units; more = ltb (units * 8 + 8) 24 }

abbrev piece_header : ℕ → IPv8Header
piece_header units = record header {
  flags = 96;
  payload_len = 8;
  next_header = 6;
  ext_headers = to_ext (piece units) ∷ [];
}

abbrev whole_packet : Decoded
whole_packet = record { header = header; payload = payload }

abbrev key : GroupKey
key = record { src = to_bytes addr; dst = to_bytes addr; id = 9 }

first_checked : check_fragment (piece_header 0) (replicate 8 1) ≡ ok (piece 0)
unfolding check_fragment parse_info to_ext to_be of_be of_be_from
first_checked = refl

second_checked : check_fragment (piece_header 1) (replicate 8 2) ≡ ok (piece 1)
unfolding check_fragment parse_info to_ext to_be of_be of_be_from
second_checked = refl

first-IsFragmentOf : IsFragmentOf whole_packet (piece 0) (piece_header 0) (replicate 8 1)
first-IsFragmentOf = record {
  version_eq = refl;
  compat_eq = refl;
  flags_eq = refl;
  hop_eq = refl;
  src_eq = refl;
  dst_eq = refl;
  slice = (refl, omega arith);
  last = refl;
  chain = λ start. refl;
}

second-IsFragmentOf : IsFragmentOf whole_packet (piece 1) (piece_header 1) (replicate 8 2)
second-IsFragmentOf = record {
  version_eq = refl;
  compat_eq = refl;
  flags_eq = refl;
  hop_eq = refl;
  src_eq = refl;
  dst_eq = refl;
  slice = (refl, omega arith);
  last = refl;
  chain = λ start. absurd (omega arith);
}

belongs :
    (hdr : IPv8Header) (bytes : List ℕ) (frag : FragmentInfo)
    → check_fragment hdr bytes ≡ ok frag
    → IsFragmentOf whole_packet frag hdr bytes
    → Belongs whole_packet key hdr bytes
belongs hdr bytes frag checked is other arrives =
    subst (λ f. IsFragmentOf whole_packet f hdr bytes) (same frag other (sym checked ∙ arrives.0))
      is
  where
    same :
        (x y : FragmentInfo) → ◌≡◌ {A = Result ReassemblyError FragmentInfo} (ok x) (ok y) → x ≡ y
    same x y e = cc

second_key : key_of (piece_header 1) (piece 1) ≡ key
unfolding key_of
second_key = refl

-- The second fragment comes, after the first one has come twice.
abbrev before : List Arrival
before =
    record { now = 1; header = piece_header 0; payload = replicate 8 1 }
    ∷ record { now = 2; header = piece_header 0; payload = replicate 8 1 }
    ∷ []

insert-Harmless_example :
    Harmless plain (insert 3 (after before empty) (piece_header 1) (replicate 8 2)).1
insert-Harmless_example =
    insert-Harmless whole_packet plain key before 3 (piece_header 1) (replicate 8 2) (piece 1)
      (record { written = plain_written; not_empty = omega arith; unfragmented = refl })
      (
        belongs (piece_header 0) (replicate 8 1) (piece 0) first_checked first-IsFragmentOf,
        (belongs (piece_header 0) (replicate 8 1) (piece 0) first_checked first-IsFragmentOf, tt),
      )
      (belongs (piece_header 1) (replicate 8 2) (piece 1) second_checked second-IsFragmentOf)
      (second_checked, second_key)
