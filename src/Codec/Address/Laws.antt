-- ===== src/Codec/Address/Laws.antt =====
-- Addresses: both forms are read back, and reading accepts nothing else.
use ipv_8_public_base_statio.Common.{
  ℕ, zero, suc, ◌+◌, ◌*◌, ◌/◌, ◌%◌, ◌<◌, ◌≡◌, refl, Bool, true, false, ◌&&◌, some, List, [], ◌∷◌,
  leb, ◌==◌, if◌then◌else◌, length, ok, err, arith, map,
}
use ipv_8_public_base_statio.Common.Bytes.{AreBytes}
use ipv_8_public_base_statio.Codec.Address.{
  IPv8Address, IsAddress, protocol_magic, with_region, region, to_bytes, from_wire, hex_char,
  to_hex, to_canonical_string, is_ascii_hexdigit, hex_val, all_hexdigits, from_hex, bad_protocol,
  from_canonical_str,
}

-- A region of 48 bits is read back from the address that is made with it.
pub region-with_region :
    (r s1 s2 h s : ℕ) → r < 281474976710656 → region (with_region r s1 s2 h s) ≡ r
unfolding region with_region
region-with_region r s1 s2 h s lt = omega arith

-- The sixteen bytes of an address whose fields are u16 give the address back.
pub from_wire-to_bytes : (a : IPv8Address) → IsAddress a → from_wire (to_bytes a) ≡ some a
unfolding from_wire to_bytes
from_wire-to_bytes a v = ground arith

hex_val-hex_char : (n : ℕ) → n < 16 → hex_val (hex_char n) ≡ n
unfolding hex_val hex_char
hex_val-hex_char n h = ground arith

hex_char-hexdigit : (n : ℕ) → n < 16 → is_ascii_hexdigit (hex_char n) ≡ true
unfolding is_ascii_hexdigit hex_char
hex_char-hexdigit n h = ground arith

all_hexdigits-to_hex : (bs : List ℕ) → AreBytes bs → all_hexdigits (to_hex bs) ≡ true
unfolding all_hexdigits to_hex
all_hexdigits-to_hex [] h = refl
all_hexdigits-to_hex (b ∷ bs) h =
    rw (hex_char-hexdigit (b / 16) (omega arith), hex_char-hexdigit (b % 16) (omega arith))
      (all_hexdigits-to_hex bs h.1)

from_hex-to_hex : (bs : List ℕ) → AreBytes bs → from_hex (to_hex bs) ≡ bs
unfolding from_hex to_hex
from_hex-to_hex [] h = refl
from_hex-to_hex (b ∷ bs) h =
    rw (hex_val-hex_char (b / 16) (omega arith), hex_val-hex_char (b % 16) (omega arith))
      (rw (from_hex-to_hex bs h.1) (ground arith))

length-to_hex : (bs : List ℕ) → length (to_hex bs) ≡ length bs * 2
unfolding to_hex
length-to_hex [] = refl
length-to_hex (b ∷ bs) = omega (arith, length-to_hex bs)

AreBytes-to_bytes : (a : IPv8Address) → AreBytes (to_bytes a)
unfolding to_bytes
AreBytes-to_bytes a = omega arith

length-to_bytes : (a : IPv8Address) → length (to_bytes a) ≡ 16
unfolding to_bytes
length-to_bytes a = refl

-- The canonical text of an address with the protocol magic is read back as that address; the text
-- of any other address is refused for its magic.
pub from_canonical_str-to_canonical_string :
    (a : IPv8Address)
    → IsAddress a
    → from_canonical_str (to_canonical_string a)
      ≡ (if a.protocol == protocol_magic then ok a else err bad_protocol)
unfolding from_canonical_str to_canonical_string
from_canonical_str-to_canonical_string a v =
    rw
      (
        length-to_hex (to_bytes a),
        length-to_bytes a,
        all_hexdigits-to_hex (to_bytes a) (AreBytes-to_bytes a),
        from_hex-to_hex (to_bytes a) (AreBytes-to_bytes a),
      )
      (ground (arith, from_wire-to_bytes a v))

-- `to_ascii_lowercase` on hexadecimal digits.
abbrev pub lower_hex : ℕ → ℕ
lower_hex c = if leb b'A' c then if leb c b'F' then c + 32 else c else c

hex_char-hex_val : (c : ℕ) → is_ascii_hexdigit c ≡ true → hex_char (hex_val c) ≡ lower_hex c
unfolding hex_char hex_val is_ascii_hexdigit
hex_char-hex_val c h = ground arith

hex_val-lt : (c : ℕ) → hex_val c < 16
unfolding hex_val
hex_val-lt c = ground arith

and_parts : (a b : Bool) → (a && b) ≡ true → (a ≡ true) × (b ≡ true)
and_parts true b h = (refl, h)
and_parts false b h = cc

to_hex-from_hex :
    (n : ℕ) (cs : List ℕ)
    → length cs ≡ n * 2
    → all_hexdigits cs ≡ true
    → to_hex (from_hex cs) ≡ map lower_hex cs
unfolding to_hex from_hex all_hexdigits
to_hex-from_hex n [] e h = refl
to_hex-from_hex n (c ∷ []) e h = absurd (omega arith)
to_hex-from_hex zero (c ∷ d ∷ cs) e h = absurd (omega arith)
to_hex-from_hex (suc n) (c ∷ d ∷ cs) e h =
    let hc = and_parts (is_ascii_hexdigit c) (is_ascii_hexdigit d && all_hexdigits cs) h in
    let hd = and_parts (is_ascii_hexdigit d) (all_hexdigits cs) hc.1 in
    let hi : (hex_val c * 16 + hex_val d) / 16 ≡ hex_val c = omega (arith, hex_val-lt d) in
    let lo : (hex_val c * 16 + hex_val d) % 16 ≡ hex_val d = omega (arith, hex_val-lt d) in
    rw (hi, lo, hex_char-hex_val c hc.0, hex_char-hex_val d hd.0)
      (rw (to_hex-from_hex n cs (omega arith) hd.1))

AreBytes-from_hex : (cs : List ℕ) → AreBytes (from_hex cs)
unfolding from_hex
AreBytes-from_hex [] = tt
AreBytes-from_hex (c ∷ []) = tt
AreBytes-from_hex (c ∷ d ∷ cs) = (omega (arith, hex_val-lt c, hex_val-lt d), AreBytes-from_hex cs)

length-from_hex : (n : ℕ) (cs : List ℕ) → length cs ≡ n * 2 → length (from_hex cs) ≡ n
unfolding from_hex
length-from_hex n [] e = omega arith
length-from_hex n (c ∷ []) e = absurd (omega arith)
length-from_hex zero (c ∷ d ∷ cs) e = absurd (omega arith)
length-from_hex (suc n) (c ∷ d ∷ cs) e = omega (arith, length-from_hex n cs (omega arith))

-- Sixteen bytes are the bytes of the address that is read from them.
to_bytes-from_wire :
    (bs : List ℕ) {a : IPv8Address}
    → AreBytes bs
    → length bs ≡ 16
    → from_wire bs ≡ some a
    → to_bytes a ≡ bs
unfolding to_bytes from_wire
to_bytes-from_wire
      (b0 ∷ b1 ∷ b2 ∷ b3 ∷ b4 ∷ b5 ∷ b6 ∷ b7 ∷ b8 ∷ b9 ∷ b10 ∷ b11 ∷ b12 ∷ b13 ∷ b14 ∷ b15 ∷ []) h e
      r =
    ground arith
to_bytes-from_wire _ h e r = absurd (omega arith)

canonical_parts :
    (cs : List ℕ) (a : IPv8Address)
    → from_canonical_str cs ≡ ok a
    → (length cs ≡ 32)
      × (all_hexdigits cs ≡ true)
      × (from_wire (from_hex cs) ≡ some a)
      × (a.protocol ≡ protocol_magic)
unfolding from_canonical_str
canonical_parts cs a h = ground arith

-- A text that is read as an address has its magic, and is that address's canonical text but for the
-- case of its letters.
pub to_canonical_string-from_canonical_str :
    (cs : List ℕ) (a : IPv8Address)
    → from_canonical_str cs ≡ ok a
    → (a.protocol ≡ protocol_magic) × (to_canonical_string a ≡ map lower_hex cs)
unfolding to_canonical_string
to_canonical_string-from_canonical_str cs a h =
    let (size, digits, read, magic) = canonical_parts cs a h in
    (
      magic,
      rw (to_bytes-from_wire (from_hex cs) (AreBytes-from_hex cs) (length-from_hex 16 cs size) read)
          (to_hex-from_hex 16 cs size digits),
    )
