-- ===== src/Fec/Missing.antt =====
-- The scan of a group for the frame that is missing (src/core/ipv8-fec/src/rx.rs).
use ipv_8_public_base_statio.Common.{
  ℕ, zero, suc, ◌+◌, ◌≤◌, ◌<◌, ◌≡◌, refl, ap, sym, ◌∙◌, bit_xor, List, [], ◌∷◌, Option, none, some,
  true, max, length, get_or, All, arith, ◌==◌, ==_ne, ==_iff, subst,
}
use ipv_8_public_base_statio.Common.Xor.{bit_xor_assoc, bit_xor-zero}
use ipv_8_public_base_statio.Fec.{xor_into}
use ipv_8_public_base_statio.Fec.Sender.Group.{Frames, counter_of, counters_of, sizes}
use ipv_8_public_base_statio.Fec.Receiver.{Cache, lookup, max_of, scan, xor_others}
use ipv_8_public_base_statio.Fec.Xor.{length-xor_into, get_or-xor_into, xor_at, xor_but}

Present : Cache → List ℕ → Type 0
Present cache f = lookup cache (counter_of f) ≡ some f

-- The cache has every frame of the list but the one at the index.
abbrev pub AllBut : Cache → Frames → ℕ → Type 0
AllBut cache [] j = ⊥
AllBut cache (f ∷ fs) zero =
    (lookup cache (counter_of f) ≡ none) × All (λ g. lookup cache (counter_of g) ≡ some g) fs
AllBut cache (f ∷ fs) (suc j) = (lookup cache (counter_of f) ≡ some f) × AllBut cache fs j

scan_present :
    (cache : Cache) (fs : Frames) (i : ℕ) (m : Option ℕ) (n : ℕ)
    → All (λ g. lookup cache (counter_of g) ≡ some g) fs
    → scan cache (counters_of fs) i m n ≡ (m, n)
unfolding scan
scan_present cache [] i m n h = refl
scan_present cache (f ∷ fs) i m n (hf, h) = rw hf (scan_present cache fs (i + 1) m n h)

pub some_at : {m n : ℕ} (c : ℕ) → m ≡ n → ◌≡◌ {A = Option ℕ × ℕ} (some m, c) (some n, c)
some_at c e = ap (λ k. (some k, c)) e

pub scan-but :
    (cache : Cache) (fs : Frames) (i j : ℕ)
    → AllBut cache fs j
    → scan cache (counters_of fs) i none 0 ≡ (some (i + j), 1)
unfolding scan
scan-but cache [] i j h = absurd h
scan-but cache (f ∷ fs) i zero (hf, h) =
    rw hf (scan_present cache fs (i + 1) (some i) 1 h ∙ some_at 1 (omega arith))
scan-but cache (f ∷ fs) i (suc j) (hf, h) =
    rw hf (scan-but cache fs (i + 1) j h ∙ some_at 1 (omega arith))

-- A byte string `b` that is `a` with the bytes `x` added.
pub record IsXor (a b : List ℕ) (x : ℕ → ℕ) : Type 0 where
  pub same_length : length b ≡ length a
  pub bytes : (i : ℕ) → get_or b i 0 ≡ bit_xor (get_or a i 0) (x i)

abbrev pub AllWithin : ℕ → Frames → Type 0
AllWithin n fs = All (λ f. length f ≤ n) fs

add_member :
    (acc f b : List ℕ) (x : ℕ → ℕ)
    → length f ≤ length acc
    → IsXor (xor_into acc f) b x
    → IsXor acc b (λ i. bit_xor (get_or f i 0) (x i))
add_member acc f b x h r = record {
  same_length = r.same_length ∙ length-xor_into acc f;
  bytes = λ i.
      r.bytes i
      ∙ ap (λ y. bit_xor y (x i)) (get_or-xor_into acc f i h)
      ∙ bit_xor_assoc (get_or acc i 0) (get_or f i 0) (x i);
}

xor_others_present :
    (cache : Cache) (fs : Frames) (m i : ℕ) (acc : List ℕ)
    → m < i
    → AllWithin (length acc) fs
    → All (λ g. lookup cache (counter_of g) ≡ some g) fs
    → IsXor acc (xor_others cache (counters_of fs) m i acc) (xor_at fs)
unfolding xor_others
xor_others_present cache [] m i acc lt w h = record {
  same_length = refl;
  bytes = λ k. sym (bit_xor-zero (get_or acc k 0));
}
xor_others_present cache (f ∷ fs) m i acc lt (wf, w) (hf, h) =
    let w' : AllWithin (length (xor_into acc f)) fs =
      subst (λ n. AllWithin n fs) (sym (length-xor_into acc f)) w in
    rw (==_ne i m (λ e. absurd (omega arith)), hf)
      (add_member acc f (xor_others cache (counters_of fs) m (i + 1) (xor_into acc f)) (xor_at fs)
        wf (xor_others_present cache fs m (i + 1) (xor_into acc f) (omega arith) w' h))

pub xor_others-but :
    (cache : Cache) (fs : Frames) (m i j : ℕ) (acc : List ℕ)
    → m ≡ i + j
    → AllWithin (length acc) fs
    → AllBut cache fs j
    → IsXor acc (xor_others cache (counters_of fs) m i acc) (xor_but fs j)
unfolding xor_others
xor_others-but cache [] m i j acc e w h = absurd h
xor_others-but cache (f ∷ fs) m i zero acc e (wf, w) (hf, h) =
    rw (==_of i m (omega arith)) (xor_others_present cache fs m (i + 1) acc (omega arith) w h)
  where
    ==_of : (a b : ℕ) → a ≡ b → (a == b) ≡ true
    ==_of a b e = (==_iff a b).1 e
xor_others-but cache (f ∷ fs) m i (suc j) acc e (wf, w) (hf, h) =
    let w' : AllWithin (length (xor_into acc f)) fs =
      subst (λ n. AllWithin n fs) (sym (length-xor_into acc f)) w in
    rw (==_ne i m (λ same. absurd (omega arith)), hf)
      (add_member acc f (xor_others cache (counters_of fs) m (i + 1) (xor_into acc f))
        (xor_but fs j) wf (xor_others-but cache fs m (i + 1) j (xor_into acc f) (omega arith) w' h))

within_mono : (m n : ℕ) (fs : Frames) → m ≤ n → AllWithin m fs → AllWithin n fs
within_mono m n [] le h = tt
within_mono m n (f ∷ fs) le (hf, h) = (omega arith, within_mono m n fs le h)

pub within_max : (fs : Frames) → AllWithin (max_of (sizes fs)) fs
unfolding max_of
within_max [] = tt
within_max (f ∷ fs) = (
  omega arith,
  within_mono (max_of (sizes fs)) (max (length f) (max_of (sizes fs))) fs (omega arith)
      (within_max fs),
)
