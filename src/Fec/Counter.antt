-- ===== src/Fec/Counter.antt =====
-- Where `data_counter` reads, against the layout of a data frame: header and plain segment,
-- counter, ciphertext, tag (src/core/ipv8-fec/src/lib.rs, src/core/ipv8-tunnel/src/encapsulate.rs).
use ipv_8_public_base_statio.Common.{
  ℕ, ◌-◌, ◌^◌, ◌≤◌, ◌<◌, ◌≡◌, ap, sym, ◌∙◌, List, ◌++◌, append_assoc, length, take, drop, arith,
  length-append, drop-length_append, drop_at, take-length_append, ok,
}
use ipv_8_public_base_statio.Common.Bytes.{to_be, of_be, of_be-to_be, length-to_be}
use ipv_8_public_base_statio.Fec.{data_counter}
use ipv_8_public_base_statio.Fec.Sender.Group.{data_counter-long}

-- The eight bytes before the tag of sixteen are what is read.
data_counter_before_tag :
    (front eight tag : List ℕ)
    → 50 ≤ length front
    → length eight ≡ 8
    → length tag ≡ 16
    → data_counter (front ++ (eight ++ tag)) ≡ ok (of_be eight)
data_counter_before_tag front eight tag hf he ht =
    let n = length-append front (eight ++ tag) in
    let m = length-append eight tag in
    let cut : take 8 (drop (length (front ++ (eight ++ tag)) - 24) (front ++ (eight ++ tag)))
        ≡ eight =
      ap (take 8) (
        drop_at (front ++ (eight ++ tag)) {n = length front} (omega arith)
        ∙ drop-length_append front (eight ++ tag))
      ∙ ap (λ k. take k (eight ++ tag)) (sym he)
      ∙ take-length_append eight tag in
    data_counter-long (front ++ (eight ++ tag)) (omega arith) ∙ ap (λ b. ok (of_be b)) cut

-- For a frame that is laid out as header and plain segment (at least 50 bytes), counter, ciphertext
-- and tag, `data_counter` returns the counter when the ciphertext is empty, and the last eight
-- bytes of the ciphertext, not the counter, when the ciphertext has eight bytes or more.
pub data_counter_layout :
    (front tag ct last : List ℕ) (c : ℕ)
    → 50 ≤ length front
    → c < 256 ^ 8
    → length tag ≡ 16
    → length last ≡ 8
    → (data_counter (front ++ (to_be 8 c ++ tag)) ≡ ok c)
      × (data_counter (front ++ (to_be 8 c ++ ((ct ++ last) ++ tag))) ≡ ok (of_be last))
data_counter_layout front tag ct last c hf hc ht hl = (
  data_counter_before_tag front (to_be 8 c) tag hf (length-to_be 8 c) ht
      ∙ ap ok (of_be-to_be 8 c hc),
  ap data_counter regroup
      ∙ data_counter_before_tag (front ++ (to_be 8 c ++ ct)) last tag
          (omega (arith, length-append front (to_be 8 c ++ ct))) hl ht,
)
  where
    regroup :
        front ++ (to_be 8 c ++ ((ct ++ last) ++ tag))
        ≡ (front ++ (to_be 8 c ++ ct)) ++ (last ++ tag)
    regroup =
        ap (λ x. front ++ (to_be 8 c ++ x)) (append_assoc ct last tag)
        ∙ ap (λ x. front ++ x) (sym (append_assoc (to_be 8 c) ct (last ++ tag)))
        ∙ sym (append_assoc front (to_be 8 c ++ ct) (last ++ tag))
