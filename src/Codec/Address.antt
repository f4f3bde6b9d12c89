-- ===== src/Codec/Address.antt =====
-- IPv8 addresses and their two forms, 16 bytes and 32 hexadecimal digits
-- (src/core/ipv8-codec/src/header.rs). A text is the list of its ASCII codes.
pub mod Laws
use ipv_8_public_base_statio.Common.{
  ℕ, suc, ◌+◌, ◌-◌, ◌*◌, ◌/◌, ◌%◌, ◌<◌, ◌≡◌, Bool, true, false, not, ◌&&◌, ◌||◌, Option, none, some,
  List, [], ◌∷◌, ◌++◌, ltb, leb, ◌==◌, if◌then◌else◌, length, get_or, Result, ok, err,
}
use ipv_8_public_base_statio.Common.Bytes.{u16, be16, of_be16}

pub record IPv8Address : Type 0 where
  pub protocol : ℕ
  pub region_hi : ℕ
  pub region_mid : ℕ
  pub region_lo : ℕ
  pub subnet1 : ℕ
  pub subnet2 : ℕ
  pub node_hash : ℕ
  pub session_id : ℕ

abbrev pub protocol_magic : ℕ
protocol_magic = 0xfb14

-- Eight u16 fields.
pub record IsAddress (a : IPv8Address) : Type 0 where
  pub protocol_u16 : a.protocol < 65536
  pub region_hi_u16 : a.region_hi < 65536
  pub region_mid_u16 : a.region_mid < 65536
  pub region_lo_u16 : a.region_lo < 65536
  pub subnet1_u16 : a.subnet1 < 65536
  pub subnet2_u16 : a.subnet2 < 65536
  pub node_hash_u16 : a.node_hash < 65536
  pub session_id_u16 : a.session_id < 65536

unfoldable pub with_region : ℕ → ℕ → ℕ → ℕ → ℕ → IPv8Address
with_region region subnet1 subnet2 node_hash session_id = record {
  protocol = protocol_magic;
  region_hi = u16 (region / 4294967296);
  region_mid = u16 (region / 65536);
  region_lo = u16 region;
  subnet1 = subnet1;
  subnet2 = subnet2;
  node_hash = node_hash;
  session_id = session_id;
}

-- The fields are disjoint, so `|` is a sum.
unfoldable pub region : IPv8Address → ℕ
region a = a.region_hi * 4294967296 + a.region_mid * 65536 + a.region_lo

-- The buffer's 16 bytes, and the constant `true` that the source returns.
unfoldable pub write_to : IPv8Address → List ℕ × Bool
write_to a = (
  be16 a.protocol
      ++ (be16 a.region_hi
          ++ (be16 a.region_mid
              ++ (be16 a.region_lo
                  ++ (be16 a.subnet1
                      ++ (be16 a.subnet2 ++ (be16 a.node_hash ++ be16 a.session_id)))))),
  true,
)

unfoldable pub to_bytes : IPv8Address → List ℕ
unfolding write_to
to_bytes a = (write_to a).0

-- The argument is an array of 16 bytes, so none of the slices can fail.
unfoldable pub from_wire : List ℕ → Option IPv8Address
from_wire wire = some (record {
  protocol = of_be16 (get_or wire 0 0) (get_or wire 1 0);
  region_hi = of_be16 (get_or wire 2 0) (get_or wire 3 0);
  region_mid = of_be16 (get_or wire 4 0) (get_or wire 5 0);
  region_lo = of_be16 (get_or wire 6 0) (get_or wire 7 0);
  subnet1 = of_be16 (get_or wire 8 0) (get_or wire 9 0);
  subnet2 = of_be16 (get_or wire 10 0) (get_or wire 11 0);
  node_hash = of_be16 (get_or wire 12 0) (get_or wire 13 0);
  session_id = of_be16 (get_or wire 14 0) (get_or wire 15 0);
})

-- `HEX[n]` of b"0123456789abcdef".
unfoldable pub hex_char : ℕ → ℕ
hex_char n = if ltb n 10 then b'0' + n else b'a' + (n - 10)

unfoldable pub to_hex : List ℕ → List ℕ
unfolding hex_char
to_hex [] = []
to_hex (byte ∷ bytes) = hex_char (byte / 16) ∷ hex_char (byte % 16) ∷ to_hex bytes

unfoldable pub to_canonical_string : IPv8Address → List ℕ
to_canonical_string a = to_hex (to_bytes a)

unfoldable pub is_ascii_hexdigit : ℕ → Bool
is_ascii_hexdigit b =
    leb b'0' b && leb b b'9' || (leb b'a' b && leb b b'f' || leb b'A' b && leb b b'F')

unfoldable pub hex_val : ℕ → ℕ
hex_val b =
    if leb b'0' b && leb b b'9'
    then b - b'0'
    else if leb b'a' b && leb b b'f'
    then b - b'a' + 10
    else if leb b'A' b && leb b b'F'
    then b - b'A' + 10
    else 0

unfoldable pub all_hexdigits : List ℕ → Bool
unfolding is_ascii_hexdigit
all_hexdigits [] = true
all_hexdigits (b ∷ bs) = let rest = all_hexdigits bs in is_ascii_hexdigit b && rest

-- The loop over `wire[i]`: two digits a byte. `(h << 4) | l` is a sum, as `l` is below 16.
unfoldable pub from_hex : List ℕ → List ℕ
unfolding hex_val
from_hex [] = []
from_hex (h ∷ []) = []
from_hex (h ∷ l ∷ rest) = (hex_val h * 16 + hex_val l) ∷ from_hex rest

pub data AddrParseError : Type 0 where
  format bad_protocol : AddrParseError

check_protocol : IPv8Address → Result AddrParseError IPv8Address
check_protocol addr = if not (addr.protocol == protocol_magic) then err bad_protocol else ok addr

ok_or_format : Option IPv8Address → Result AddrParseError IPv8Address
unfolding check_protocol
ok_or_format none = err format
ok_or_format (some addr) = check_protocol addr

unfoldable pub from_canonical_str : List ℕ → Result AddrParseError IPv8Address
unfolding ok_or_format
from_canonical_str bytes =
    if not (length bytes == 32) || not (all_hexdigits bytes)
    then err format
    else ok_or_format (from_wire (from_hex bytes))

-- The groups of `to_display_string`: `chunks(2)`, with a colon before all but the first.
display_groups : List ℕ → List ℕ
unfolding hex_char
display_groups [] = []
display_groups (a ∷ []) = []
display_groups (a ∷ b ∷ rest) =
    b':'
    ∷ hex_char (a / 16)
    ∷ hex_char (a % 16)
    ∷ hex_char (b / 16)
    ∷ hex_char (b % 16)
    ∷ display_groups rest

drop_first : List ℕ → List ℕ
drop_first [] = []
drop_first (c ∷ cs) = cs

unfoldable pub to_display_string : IPv8Address → List ℕ
unfolding display_groups drop_first
to_display_string a = drop_first (display_groups (to_bytes a))
