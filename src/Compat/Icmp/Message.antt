-- ===== src/Compat/Icmp/Message.antt =====
-- The ICMP message without its IP header (src/core/ipv8-compat/src/icmp.rs).
use ipv_8_public_base_statio.Common.{
  ℕ, suc, ◌+◌, ◌≤◌, ◌<◌, ◌≡◌, refl, List, ◌∷◌, ◌++◌, length, arith, length-append, le→ltb,
}
use ipv_8_public_base_statio.Common.Bytes.{AreBytes}
use ipv_8_public_base_statio.Compat.Checksum.{checksum, icmp_checksum}
use ipv_8_public_base_statio.Compat.Checksum.Laws.{
  AreBytes-append, AreBytes-put_word, put_word, written_verifies,
}
use ipv_8_public_base_statio.Compat.Icmp.{icmp_message, written_at}

-- The message with its checksum is the message with a word put into its field.
pub icmp_message_eq :
    (kind code : ℕ) (rest payload : List ℕ)
    → icmp_message kind code rest payload
      ≡ put_word
          (kind ∷ code ∷ 0 ∷ 0 ∷ (rest ++ payload))
          2
          (checksum (kind ∷ code ∷ 0 ∷ 0 ∷ (rest ++ payload)))
unfolding icmp_message written_at icmp_checksum
icmp_message_eq kind code rest payload =
    rw (le→ltb (suc (suc (suc (suc (length (rest ++ payload)))))) 4 (omega arith)) refl

pub icmp_message-verifies :
    (kind code : ℕ) (rest payload : List ℕ)
    → kind < 256
    → code < 256
    → AreBytes rest
    → AreBytes payload
    → length (rest ++ payload) ≤ 65531
    → checksum (icmp_message kind code rest payload) ≡ 0
icmp_message-verifies kind code rest payload h k all_rest all most =
    let i : List ℕ = kind ∷ code ∷ 0 ∷ 0 ∷ (rest ++ payload) in
    rw (icmp_message_eq kind code rest payload) (
      written_verifies 2 i refl (omega arith) (omega arith)
        (h, (k, (omega arith, (omega arith, AreBytes-append rest payload all_rest all))))
        (checksum i) refl)

pub AreBytes-icmp_message :
    (kind code : ℕ) (rest payload : List ℕ)
    → kind < 256
    → code < 256
    → AreBytes rest
    → AreBytes payload
    → AreBytes (icmp_message kind code rest payload)
AreBytes-icmp_message kind code rest payload h k all_rest all =
    let i : List ℕ = kind ∷ code ∷ 0 ∷ 0 ∷ (rest ++ payload) in
    rw (icmp_message_eq kind code rest payload) (
      AreBytes-put_word i 2 (checksum i)
        (h, (k, (omega arith, (omega arith, AreBytes-append rest payload all_rest all)))))

pub length-icmp_message :
    (kind code : ℕ) (rest payload : List ℕ)
    → length (icmp_message kind code rest payload) ≡ 4 + (length rest + length payload)
length-icmp_message kind code rest payload =
    rw (icmp_message_eq kind code rest payload, length-append rest payload) (omega arith)
