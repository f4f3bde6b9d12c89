-- ===== src/Compat/Outbound/Errors.antt =====
-- What `process_outbound` promises, and the errors that it injects
-- (src/core/ipv8-compat/src/lib.rs).
use ipv_8_public_base_statio.Common.{
  ℕ, ◌≤◌, ◌<◌, ◌≡◌, ◌⊎◌, refl, sym, ◌∙◌, List, length, arith, Option, none, some, not, ltb, ◌==◌,
  ◌||◌, ◌&&◌, Bool, true, false, Bool-cases, inl, inr, ltb→lt,
}
use ipv_8_public_base_statio.Common.{◌∷◌, [], Bool, false}
use ipv_8_public_base_statio.Common.Bytes.{AreBytes, be16, to_be, u16, u32}
use ipv_8_public_base_statio.Compat.Outbound.{mss_target_of}
use ipv_8_public_base_statio.Compat.Icmp.{error_v4, error_v6}
use ipv_8_public_base_statio.Compat.Mss.Clamp.{IsClamped}
use ipv_8_public_base_statio.Compat.Icmp.Laws.{IsReplyV4, error_v4-IsReply}
use ipv_8_public_base_statio.Compat.Icmp.V6.{IsReplyV6, error_v6-IsReply}
use ipv_8_public_base_statio.Compat.Ip.{ip_version, ipv4_df_set}
use ipv_8_public_base_statio.Compat.Outbound.{
  Outcome, dropped, forward, inject_icmp, inject_or_drop, with_v6,
}
use ipv_8_public_base_statio.Compat.Ttl.{decrement_ttl, is_multicast_or_broadcast}
use ipv_8_public_base_statio.Compat.Ttl.Kept.{IsKept, decrement_ttl-IsKept, version-IsKept}

-- A packet that is not touched: no IP, or multicast or broadcast.
abbrev pub is_exempt : List ℕ → Bool
is_exempt p = (not (ip_version p == 4) && not (ip_version p == 6)) || is_multicast_or_broadcast p

-- A packet that may be larger than the MTU: IPv4 whose DF bit is clear once its TTL is counted
-- down.
abbrev pub MayFragment : List ℕ → Type 0
MayFragment p = (ip_version p ≡ 4) × (ipv4_df_set (decrement_ttl p).1 ≡ false)

-- A packet for which no error can be made: one without a whole header, or IPv6 without an address.
abbrev pub IsUnanswerable : List ℕ → Option (List ℕ) → Type 0
IsUnanswerable p our_v6 =
    (length p < 20) ⊎ ((ip_version p ≡ 6) × ((length p < 40) ⊎ (our_v6 ≡ none)))

abbrev pub Expired : List ℕ → Type 0
Expired p = (decrement_ttl p).0 ≡ false

-- A packet with hops left that is larger than the MTU and may not be fragmented.
abbrev pub TooLarge : List ℕ → ℕ → Type 0
TooLarge p mtu = ((decrement_ttl p).0 ≡ true) × ((mtu < length p) × (MayFragment p → ⊥))

-- A packet with hops left that is within the MTU or may be fragmented.
abbrev pub CanPass : List ℕ → ℕ → Type 0
CanPass p mtu = ((decrement_ttl p).0 ≡ true) × ((length p ≤ mtu) ⊎ MayFragment p)

-- The error that a packet `q` is answered with: over IPv4 Time Exceeded (11, 0) or Fragmentation
-- Needed (3, 4) with the MTU, over IPv6 Time Exceeded (3, 0) or Packet Too Big (2, 0) with the MTU.
abbrev pub Answers : List ℕ → ℕ → List ℕ → Option (List ℕ) → List ℕ → List ℕ → Type 0
Answers p mtu our_v4 our_v6 q reply =
    ((ip_version p ≡ 4)
      × ((Expired p × IsReplyV4 11 0 (0 ∷ 0 ∷ 0 ∷ 0 ∷ []) q our_v4 reply)
          ⊎ (TooLarge p mtu × IsReplyV4 3 4 (0 ∷ 0 ∷ be16 (u16 mtu)) q our_v4 reply)))
    ⊎ ((ip_version p ≡ 6)
        × ((a6 : List ℕ) × ((our_v6 ≡ some a6)
              × ((Expired p × IsReplyV6 3 0 (0 ∷ 0 ∷ 0 ∷ 0 ∷ []) q a6 reply)
                  ⊎ (TooLarge p mtu × IsReplyV6 2 0 (to_be 4 (u32 mtu)) q a6 reply)))))

-- What `process_outbound` promises. An exempt packet is forwarded as it was, whatever its size. Any
-- other is forwarded with its MSS clamped only if it can pass; and an error is injected, or the
-- packet dropped because no error can be made, only if it has expired or is too large.
abbrev pub IsOutcome : List ℕ → ℕ → Option ℕ → List ℕ → Option (List ℕ) → Outcome × List ℕ → Type 0
IsOutcome p mtu target our_v4 our_v6 (forward, q) =
    ((is_exempt p ≡ true) × (q ≡ p))
    ⊎ ((is_exempt p ≡ false)
        × (CanPass p mtu
            × ((b : Bool) × IsClamped (decrement_ttl p).1
                  (mss_target_of (decrement_ttl p).1 mtu target) (b, q))))
IsOutcome p mtu target our_v4 our_v6 (inject_icmp reply, q) =
    (is_exempt p ≡ false) × ((q ≡ (decrement_ttl p).1) × Answers p mtu our_v4 our_v6 q reply)
IsOutcome p mtu target our_v4 our_v6 (dropped, q) =
    (is_exempt p ≡ false) × ((Expired p ⊎ TooLarge p mtu) × IsUnanswerable p our_v6)

abbrev pub IsAddress : ℕ → List ℕ → Type 0
IsAddress n a = (length a ≡ n) × AreBytes a

abbrev pub IsTarget : Option ℕ → Type 0
IsTarget target = (t : ℕ) → target ≡ some t → t < 65536

not_short : (n m : ℕ) → ltb n m ≡ false → m ≤ n
not_short n m e = ground arith

-- What making one error ends with.
abbrev pub IsErrorV4 :
    ℕ → ℕ → List ℕ → List ℕ → List ℕ → List ℕ → Option (List ℕ) → Outcome → Type 0
IsErrorV4 kind code word p q our_v4 our_v6 forward = ⊥
IsErrorV4 kind code word p q our_v4 our_v6 (inject_icmp reply) =
    IsReplyV4 kind code word q our_v4 reply
IsErrorV4 kind code word p q our_v4 our_v6 dropped = IsUnanswerable p our_v6

abbrev pub IsErrorV6 : ℕ → ℕ → List ℕ → List ℕ → List ℕ → Option (List ℕ) → Outcome → Type 0
IsErrorV6 kind code word p q our_v6 forward = ⊥
IsErrorV6 kind code word p q our_v6 (inject_icmp reply) =
    (a6 : List ℕ) × ((our_v6 ≡ some a6) × IsReplyV6 kind code word q a6 reply)
IsErrorV6 kind code word p q our_v6 dropped = IsUnanswerable p our_v6

module _ (p : List ℕ) (our_v4 : List ℕ) (our_v6 : Option (List ℕ)) (all : AreBytes p)
    (is_v4 : IsAddress 4 our_v4) (is_v6 : (a : List ℕ) → our_v6 ≡ some a → IsAddress 16 a) where
  abbrev q : List ℕ
  q = (decrement_ttl p).1

  kept : IsKept p q
  kept = decrement_ttl-IsKept p all

  pub error_v4-IsError :
      (kind code : ℕ) (rest : List ℕ)
      → kind < 256
      → code < 256
      → AreBytes rest
      → length rest ≡ 4
      → ip_version p ≡ 4
      → IsErrorV4 kind code rest p q our_v4 our_v6
          (inject_or_drop (error_v4 kind code rest q our_v4))
  unfolding inject_or_drop
  error_v4-IsError kind code rest h k all_rest len v4 = elim (Bool-cases (ltb (length q) 20)) [
    | inl short ↦ rw (none_v4 short) (inl (omega (arith, ltb→lt (length q) 20 short, kept.len)))
    | inr long ↦
        let (reply, (e, is)) =
          error_v4-IsReply kind code rest q our_v4 h k all_rest len kept.bytes
            (version-IsKept p q kept ∙ v4) (not_short (length q) 20 long) is_v4.1 is_v4.0 in
        rw e is
  ]
    where
      none_v4 : ltb (length q) 20 ≡ true → error_v4 kind code rest q our_v4 ≡ none
      none_v4 short = unfold error_v4 in rw (short, version-IsKept p q kept, v4) refl

  pub error_v6-IsError :
      (kind code : ℕ) (rest : List ℕ)
      → kind < 256
      → code < 256
      → AreBytes rest
      → length rest ≡ 4
      → ip_version p ≡ 6
      → (o : Option (List ℕ)) → o ≡ our_v6
      → IsErrorV6 kind code rest p q our_v6 (inject_or_drop (with_v6 o (error_v6 kind code rest q)))
  unfolding inject_or_drop with_v6
  error_v6-IsError kind code rest h k all_rest len v6 none e = inr (v6, inr (sym e))
  error_v6-IsError kind code rest h k all_rest len v6 (some a6) e =
      elim (Bool-cases (ltb (length q) 40)) [
        | inl short ↦
            rw (none_v6 short) (inr (v6, inl (omega (arith, ltb→lt (length q) 40 short, kept.len))))
        | inr long ↦
            let (reply, (f, is)) =
              error_v6-IsReply kind code rest q a6 h k all_rest len kept.bytes
                (version-IsKept p q kept ∙ v6) (not_short (length q) 40 long) (is_v6 a6 (sym e)).1
                (is_v6 a6 (sym e)).0 in
            rw f (a6, (sym e, is))
      ]
    where
      none_v6 : ltb (length q) 40 ≡ true → error_v6 kind code rest q a6 ≡ none
      none_v6 short = unfold error_v6 in rw (short, version-IsKept p q kept, v6) refl
