-- ===== src/Observe/Frame/Agrees.antt =====
-- The loop of `plain_segment_len` ends, and finds the end that the decoder finds.
use ipv_8_public_base_statio.Common.{
  ℕ, zero, suc, ◌+◌, ◌*◌, ◌≤◌, ◌<◌, ◌≡◌, ◌≢◌, refl, sym, ◌∙◌, false, List, [], ◌∷◌, ◌++◌, length,
  get_or, contains, ◌==◌, ok, diverged, arith, inl, inr, Bool-cases,
}
use ipv_8_public_base_statio.Codec.Header.{ExtensionHeader}
use ipv_8_public_base_statio.Codec.Decode.{ext_loop, decode_chain}
use ipv_8_public_base_statio.Codec.Decode.Loop.{ext_loop-round, ext_here}
use ipv_8_public_base_statio.Observe.Frame.{plain_loop, plain_segment_len}

plain_loop-ne-diverged :
    (fuel : ℕ) (body : List ℕ) (cursor t : ℕ) (seen : List ℕ)
    → cursor ≤ length body
    → length body < cursor + fuel
    → plain_loop fuel body cursor t seen ≢ diverged
unfolding plain_loop
plain_loop-ne-diverged zero body cursor t seen h k = absurd (omega arith)
plain_loop-ne-diverged (suc f) body cursor t seen h k = ground (
  arith,
  plain_loop-ne-diverged f body (cursor + (2 + get_or body (cursor + 1) 0 * 8))
      (get_or body cursor 0) (t ∷ seen),
)

-- The loop over the extension chain ends on every frame body.
pub plain_segment_len-ne-diverged : (body : List ℕ) → plain_segment_len body ≢ diverged
unfolding plain_segment_len
plain_segment_len-ne-diverged body e =
    ground (arith, plain_loop-ne-diverged (suc (length body)) body 40 (get_or body 6 0) [])

-- The two lists of types met, in opposite orders, hold the same types.
contains-snoc : (xs : List ℕ) (t a : ℕ) → contains (xs ++ (t ∷ [])) a ≡ contains (t ∷ xs) a
contains-snoc [] t a = refl
contains-snoc (x ∷ xs) t a = ground (arith, contains-snoc xs t a)

plain_loop-agrees :
    (f g : ℕ) (buf : List ℕ) (cursor t idx : ℕ) (seen met : List ℕ)
    (acc exts : List ExtensionHeader) (end : ℕ)
    → ((a : ℕ) → contains seen a ≡ contains met a)
    → cursor ≤ length buf
    → length buf < cursor + g
    → ext_loop f buf cursor t idx seen acc ≡ ok (exts, end)
    → plain_loop g buf cursor t met ≡ ok end
unfolding plain_loop
plain_loop-agrees zero g buf cursor t idx seen met acc exts end same h fuel_left e =
    absurd (never e)
  where
    never : ext_loop 0 buf cursor t idx seen acc ≡ ok (exts, end) → ⊥
    never e = unfold ext_loop in cc
plain_loop-agrees (suc f) zero buf cursor t idx seen met acc exts end same h fuel_left e =
    absurd (omega arith)
plain_loop-agrees (suc f) (suc g) buf cursor t idx seen met acc exts end same h fuel_left e =
    let (new_type, room, pos, few, next) = ext_loop-round f buf cursor t idx seen acc e in
    let k : ℕ = get_or buf (cursor + 1) 0 in
    let fresh : contains met t ≡ false = sym (same t) ∙ new_type in
    elim next [
      | inl (last, all, stop) ↦ ground (arith, fresh)
      | inr (more, rest) ↦
          let ih : plain_loop g buf (cursor + (2 + k * 8)) (get_or buf cursor 0) (t ∷ met)
              ≡ ok end =
            plain_loop-agrees f g buf (cursor + (2 + k * 8)) (get_or buf cursor 0) (idx + 1)
              (seen ++ (t ∷ [])) (t ∷ met) (acc ++ (ext_here f buf cursor t idx seen acc ∷ [])) exts
              end (λ a. contains-snoc seen t a ∙ more_types a) (omega arith) (omega arith) rest in
          ground (arith, fresh, ih)
    ]
  where
    more_types : (a : ℕ) → contains (t ∷ seen) a ≡ contains (t ∷ met) a
    more_types a = ground (arith, same a)

-- The decoder's chain ends where the observer looks for the counter: when `decode_chain` reads a
-- chain of a buffer of at least 40 bytes, `plain_segment_len` returns the same end.
pub plain_segment_len-decode_chain :
    (buf : List ℕ) (exts : List ExtensionHeader) (end : ℕ)
    → 40 ≤ length buf
    → decode_chain buf (get_or buf 6 0) ≡ ok (exts, end)
    → plain_segment_len buf ≡ ok end
unfolding plain_segment_len decode_chain
plain_segment_len-decode_chain buf exts end h e = elim (Bool-cases (get_or buf 6 0 == 0)) [
  | inl z ↦ ground arith
  | inr nz ↦
      let ih =
        plain_loop-agrees 65 (suc (length buf)) buf 40 (get_or buf 6 0) 0 [] [] [] exts end
          (λ a. refl) h (omega arith) (rw nz at e) in
      ground (arith, ih)
]
