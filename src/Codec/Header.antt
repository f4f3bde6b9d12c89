-- ===== src/Codec/Header.antt =====
-- The base header, its flags and its extension headers (src/core/ipv8-codec/src/header.rs).
use ipv_8_public_base_statio.Common.{
  ℕ, ◌+◌, ◌/◌, ◌%◌, Bool, true, false, not, ◌||◌, Option, List, [], ◌∷◌, ltb, ◌==◌, if◌then◌else◌,
  length, is_empty, contains, ◌++◌, ◌≡◌,
}
use ipv_8_public_base_statio.Common.Bytes.{u8}
use ipv_8_public_base_statio.Common.Words.{has_bit, set_bit, clear_bit}
use ipv_8_public_base_statio.Codec.Address.{IPv8Address}

abbrev pub base_header_size : ℕ
base_header_size = 40

abbrev pub max_payload_len : ℕ
max_payload_len = 65467

abbrev pub max_packet_len : ℕ
max_packet_len = 65507

abbrev pub protocol_version : ℕ
protocol_version = 8

abbrev pub max_ext_chain : ℕ
max_ext_chain = 64

-- The masks of the module `flags`.
abbrev pub encrypted_bit : ℕ
encrypted_bit = 16

abbrev pub fragment_bit : ℕ
fragment_bit = 32

abbrev pub has_extension_bit : ℕ
has_extension_bit = 64

abbrev pub qos_level : ℕ → ℕ
qos_level flags = flags % 16

abbrev pub is_encrypted : ℕ → Bool
is_encrypted flags = has_bit encrypted_bit flags

abbrev pub is_fragment : ℕ → Bool
is_fragment flags = has_bit fragment_bit flags

abbrev pub has_extension : ℕ → Bool
has_extension flags = has_bit has_extension_bit flags

-- The mask 0xFF80 holds every bit of a u16 from bit 7 on.
abbrev pub reserved_ok : ℕ → Bool
reserved_ok flags = flags / 128 == 0

pub data ExtType : Type 0 where
  none identity_token semantic_tag qos_reservation agent_card route_trace fragment : ExtType
  unknown : ℕ → ExtType

unfoldable pub wire : ExtType → ℕ
wire ExtType.none = 0
wire identity_token = 1
wire semantic_tag = 2
wire qos_reservation = 3
wire agent_card = 4
wire route_trace = 5
wire fragment = 6
wire (unknown v) = v

unfoldable pub from_u8 : ℕ → ExtType
from_u8 v =
    if v == 0
    then ExtType.none
    else if v == 1
    then identity_token
    else if v == 2
    then semantic_tag
    else if v == 3
    then qos_reservation
    else if v == 4
    then agent_card
    else if v == 5
    then route_trace
    else if v == 6
    then fragment
    else unknown v

abbrev pub is_none_type : ExtType → Bool
is_none_type ExtType.none = true
is_none_type _ = false

abbrev pub is_fragment_type : ExtType → Bool
is_fragment_type fragment = true
is_fragment_type _ = false

pub record ExtensionHeader : Type 0 where
  pub ext_type : ExtType
  pub payload : List ℕ

-- `ExtensionHeader::new`.
unfoldable pub new_ext : ExtType → List ℕ → Option ExtensionHeader
new_ext ext_type payload =
    if is_none_type ext_type
    then Option.none
    else if not (length payload % 8 == 0)
        || (length payload / 8 == 0 || ltb 255 (length payload / 8))
    then Option.none
    else Option.some (record { ext_type = ext_type; payload = payload })

unfoldable pub ext_len : ExtensionHeader → ℕ
ext_len e = u8 (length e.payload / 8)

unfoldable pub wire_size : ExtensionHeader → ℕ
wire_size e = 2 + length e.payload

-- The sum of the wire sizes that the encoder and the fragmenter compute.
unfoldable pub ext_total : List ExtensionHeader → ℕ
unfolding wire_size
ext_total [] = 0
ext_total (e ∷ es) = wire_size e + ext_total es

-- `ext_headers.first().map_or(0, |e| e.ext_type.wire())`.
unfoldable pub first_wire : List ExtensionHeader → ℕ
first_wire [] = 0
first_wire (e ∷ es) = wire e.ext_type

pub record IPv8Header : Type 0 where
  pub version : ℕ
  pub min_compat_ver : ℕ
  pub flags : ℕ
  pub payload_len : ℕ
  pub hop_limit : ℕ
  pub next_header : ℕ
  pub src_addr : IPv8Address
  pub dst_addr : IPv8Address
  pub ext_headers : List ExtensionHeader

-- `IPv8Header::new`.
unfoldable pub new_header : IPv8Address → IPv8Address → ℕ → IPv8Header
new_header src dst payload_len = record {
  version = protocol_version;
  min_compat_ver = 0;
  flags = 0;
  payload_len = payload_len;
  hop_limit = 64;
  next_header = 0;
  src_addr = src;
  dst_addr = dst;
  ext_headers = [];
}

unfoldable pub attach_ext_headers : IPv8Header → List ExtensionHeader → IPv8Header
unfolding first_wire
attach_ext_headers h exts = record h {
  next_header = first_wire exts;
  flags =
      if is_empty exts
      then clear_bit has_extension_bit h.flags
      else set_bit has_extension_bit h.flags;
  ext_headers = exts;
}

-- No type of the chain is in `seen` or stands in the chain before.
abbrev pub Fresh : List ℕ → List ExtensionHeader → Type 0
Fresh seen [] = Unit {0}
Fresh seen (e ∷ es) =
    (contains seen (wire e.ext_type) ≡ false) × Fresh (seen ++ (wire e.ext_type ∷ [])) es
