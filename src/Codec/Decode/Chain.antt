-- ===== src/Codec/Decode/Chain.antt =====
-- One round of the decoder's loop over the extension chain.
use ipv_8_public_base_statio.Common.{
  ℕ, suc, ◌+◌, ◌*◌, ◌≤◌, ◌<◌, ◌≡◌, ◌≢◌, ap, sym, ◌∙◌, false, List, [], ◌∷◌, ◌++◌, ◌==◌,
  if◌then◌else◌, length, get_or, take, drop, contains, ok, arith, get_or-drop, get_or_at, drop-add,
  drop_at, length-drop, length-append, take-length_append, drop-length_append,
}
use ipv_8_public_base_statio.Codec.Header.{ExtensionHeader, from_u8}
use ipv_8_public_base_statio.Codec.Decode.{ext_loop}

-- What stands at the cursor: the pointer, the length and a payload of that length.
module _ (buf : List ℕ) (cursor ptr len : ℕ) (payload more : List ℕ)
    (here : drop cursor buf ≡ ptr ∷ len ∷ (payload ++ more)) (size : length payload ≡ len * 8) where
  pub ptr_at : get_or buf cursor 0 ≡ ptr
  ptr_at =
      get_or_at buf 0 {n = cursor + 0} (omega arith)
      ∙ get_or-drop cursor buf 0 0
      ∙ ap (λ xs. get_or xs 0 0) here

  pub len_at : get_or buf (cursor + 1) 0 ≡ len
  len_at = get_or-drop cursor buf 1 0 ∙ ap (λ xs. get_or xs 1 0) here

  rest_at : drop (cursor + 2) buf ≡ payload ++ more
  rest_at = drop-add cursor 2 buf ∙ ap (drop 2) here

  pub payload_at : take (len * 8) (drop (cursor + 2) buf) ≡ payload
  payload_at =
      ap (take (len * 8)) rest_at
      ∙ ap (λ n. take n (payload ++ more)) (sym size)
      ∙ take-length_append payload more

  pub room_at : cursor + 2 + len * 8 ≤ length buf
  room_at = omega (arith, length-drop cursor buf, ap length here, length-append payload more)

  pub more_at : drop (cursor + (2 + len * 8)) buf ≡ more
  more_at =
      drop_at buf {n = cursor + 2 + len * 8} (omega arith)
      ∙ drop-add (cursor + 2) (len * 8) buf
      ∙ ap (drop (len * 8)) rest_at
      ∙ drop_at (payload ++ more) (sym size)
      ∙ drop-length_append payload more

  pub ext_loop-step :
      (fuel t idx : ℕ) (seen : List ℕ) (acc : List ExtensionHeader)
      → contains seen t ≡ false
      → len ≢ 0
      → idx < 64
      → ext_loop (suc fuel) buf cursor t idx seen acc ≡ (
          let exts = acc ++ (record { ext_type = from_u8 t; payload = payload } ∷ []) in
          if ptr == 0
          then ok (exts, cursor + (2 + len * 8))
          else ext_loop fuel buf (cursor + (2 + len * 8)) ptr (idx + 1) (seen ++ (t ∷ [])) exts)
  unfolding ext_loop
  ext_loop-step fuel t idx seen acc fresh pos room =
      ground (arith, ptr_at, len_at, payload_at, room_at)
