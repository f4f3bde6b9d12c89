-- ===== src/Observe/Window/Laws.antt =====
-- How the counters of a window account for the frames that arrive.
use ipv_8_public_base_statio.Common.{
  ℕ, ◌+◌, ◌-◌, ◌^◌, ◌≤◌, ◌<◌, min, ◌≡◌, refl, ap, sym, subst, true, false, none, List, [], ◌∷◌,
  ◌++◌, length, ltb, leb, arith, Bool-cases, le→ltb, ◌⊎◌, inl, inr, length-append,
}
use native.Mathlib.Nat.{one-le-pow}
use ipv_8_public_base_statio.Common.Words.{has_bit, set_bit, has_bit-set_bit}
use ipv_8_public_base_statio.Observe.Window.{
  CounterWindow, SaWindows, sat32, observe_known, observe_sa, Totals, totals, totals_from,
  add_window, first, observe, shift_mask, sat64, u64_max, window_bits, jump_guard,
}

-- The window counts a frame with this counter as a duplicate.
record IsSeen (w : CounterWindow) (c : ℕ) : Type 0 where
  not_above : c ≤ w.top
  known : (leb window_bits (w.top - c) ≡ true) ⊎ (has_bit (2 ^ (w.top - c)) w.mask ≡ true)

observe-seen :
    (w : CounterWindow) (c : ℕ) → IsSeen w c → observe w c ≡ record w { dup = sat64 w.dup 1 }
unfolding observe
observe-seen w c h =
    let low : ltb w.top c ≡ false = le→ltb w.top c h.not_above in
    elim h.known [
      | inl old ↦ rw (low, old) refl
      | inr bit ↦ elim (Bool-cases (leb window_bits (w.top - c))) [
        | inl old ↦ rw (low, old) refl
        | inr new ↦ rw (low, new, bit) refl
      ]
    ]

bit_here : (w : CounterWindow) → has_bit 1 w.mask ≡ true → IsSeen w w.top
bit_here w h =
    let here : w.top - w.top ≡ 0 = omega arith in
    record {
      not_above = omega arith;
      known = inr (subst (λ k. has_bit (2 ^ k) w.mask ≡ true) (sym here) h);
    }

pow_pos : (k : ℕ) → 0 < 2 ^ k
pow_pos k = one-le-pow k 2 (omega arith)

observe-IsSeen : (w : CounterWindow) (c : ℕ) → IsSeen (observe w c) c
unfolding observe
observe-IsSeen w c = elim (Bool-cases (ltb w.top c)) [
  | inl above ↦ elim (Bool-cases (ltb jump_guard (c - w.top))) [
    | inl jump ↦
        rw (above, jump)
          (bit_here
            (record w {
              top = c;
              mask = 1;
              expected = sat64 w.expected 1;
              seen = sat64 w.seen 1;
              resets = sat32 w.resets 1;
            })
            refl)
    | inr step ↦
        rw (above, step)
          (bit_here
            (record w {
              mask = set_bit 1 (shift_mask w.mask (c - w.top));
              expected = sat64 w.expected (c - w.top);
              seen = sat64 w.seen 1;
              top = c;
            })
            (has_bit-set_bit 1 (shift_mask w.mask (c - w.top)) (omega arith)))
  ]
  | inr below ↦
      let le = ltb→ge w.top c below in
      elim (Bool-cases (leb window_bits (w.top - c))) [
        | inl old ↦ rw (below, old) (record { not_above = le; known = inl old })
        | inr new ↦ elim (Bool-cases (has_bit (2 ^ (w.top - c)) w.mask)) [
          | inl bit ↦ rw (below, new, bit) (record { not_above = le; known = inr bit })
          | inr free ↦
              rw (below, new, free)
                (record {
                  not_above = le;
                  known =
                      inr (
                        rw free at
                          (has_bit-set_bit (2 ^ (w.top - c)) w.mask (pow_pos (w.top - c))));
                })
        ]
      ]
]
  where
    ltb→ge : (a b : ℕ) → ltb a b ≡ false → b ≤ a
    ltb→ge a b h = ground arith

-- A frame that arrives again is counted as a duplicate, and nothing else changes, whatever the
-- window held before.
pub observe-observe :
    (w : CounterWindow) (c : ℕ)
    → observe (observe w c) c ≡ record (observe w c) { dup = sat64 (observe w c).dup 1 }
observe-observe w c = observe-seen (observe w c) c (observe-IsSeen w c)

-- Every frame adds one to `seen` or to `dup`, below the point where they saturate.
observe_accounts :
    (w : CounterWindow) (c : ℕ)
    → w.seen < u64_max
    → w.dup < u64_max
    → (observe w c).seen + (observe w c).dup ≡ w.seen + w.dup + 1
unfolding observe
observe_accounts w c hs hd = ground arith

-- All the frames of one key, one after the other.
abbrev pub observe_all : CounterWindow → List ℕ → CounterWindow
observe_all w [] = w
observe_all w (c ∷ cs) = observe_all (observe w c) cs

observe_all_accounts :
    (w : CounterWindow) (cs : List ℕ)
    → w.seen + w.dup + length cs ≤ u64_max
    → (observe_all w cs).seen + (observe_all w cs).dup ≡ w.seen + w.dup + length cs
observe_all_accounts w [] h = omega arith
observe_all_accounts w (c ∷ cs) h =
    let one = observe_accounts w c (omega arith) (omega arith) in
    omega (arith, observe_all_accounts (observe w c) cs (omega (arith, one)), one)

-- The window of a key, after the frames with the counters `c ∷ cs` in any order: `seen` and `dup`
-- together count every frame, below 2 ^ 64 frames.
pub window_accounts :
    (c : ℕ) (cs : List ℕ)
    → length cs + 1 ≤ u64_max
    → (observe_all (first c) cs).seen + (observe_all (first c) cs).dup ≡ length cs + 1
unfolding first
window_accounts c cs h = omega (arith, observe_all_accounts (first c) cs (omega arith))

-- Counters that arrive in rising order from `t`, each at most 4096 above the one before.
abbrev pub Rising : ℕ → List ℕ → Type 0
Rising t [] = Unit
Rising t (c ∷ cs) = (t < c) × (c ≤ t + jump_guard) × Rising c cs

abbrev pub last_of : ℕ → List ℕ → ℕ
last_of t [] = t
last_of t (c ∷ cs) = last_of c cs

last_of-ge : (t : ℕ) (cs : List ℕ) → Rising t cs → t ≤ last_of t cs
last_of-ge t [] h = omega arith
last_of-ge t (c ∷ cs) (lo, hi, h) = omega (arith, last_of-ge c cs h)

observe-rising :
    (w : CounterWindow) (c : ℕ)
    → w.top < c
    → c ≤ w.top + jump_guard
    → ((observe w c).top ≡ c)
      × ((observe w c).expected ≡ sat64 w.expected (c - w.top))
      × ((observe w c).seen ≡ sat64 w.seen 1)
unfolding observe
observe-rising w c lo hi = ground arith

counts_span :
    (w : CounterWindow) (t : ℕ) (cs : List ℕ)
    → w.top ≡ t
    → Rising t cs
    → w.expected + (last_of t cs - t) ≤ u64_max
    → w.seen + length cs ≤ u64_max
    → ((observe_all w cs).expected ≡ w.expected + (last_of t cs - t))
      × ((observe_all w cs).seen ≡ w.seen + length cs)
counts_span w t [] e h he hs = (omega arith, omega arith)
counts_span w t (c ∷ cs) e (lo, hi, h) he hs =
    let (top_eq, exp_eq, seen_eq) = observe-rising w c (omega arith) (omega arith) in
    let far = last_of-ge c cs h in
    let (re, rs) =
      counts_span (observe w c) c cs top_eq h (omega (arith, exp_eq, far))
        (omega (arith, seen_eq)) in
    (omega (arith, exp_eq, far), omega (arith, seen_eq))

-- Frames in rising order, each counter at most 4096 above the one before, after a first frame with
-- counter `c`: `expected` is the span of the counters and `seen` the number of frames, so that
-- their difference is the number of counters that did not arrive.
pub losses_counted :
    (c : ℕ) (cs : List ℕ)
    → Rising c cs
    → 1 + (last_of c cs - c) ≤ u64_max
    → 1 + length cs ≤ u64_max
    → ((observe_all (first c) cs).expected ≡ 1 + (last_of c cs - c))
      × ((observe_all (first c) cs).seen ≡ 1 + length cs)
unfolding first
losses_counted c cs h he hs = counts_span (first c) c cs refl h he hs

observe_sa-ninth :
    (k : ℕ) (w : CounterWindow) (rest : SaWindows) (key counter : ℕ)
    → length rest ≡ 7
    → observe_known ((k, w) ∷ rest) key counter ≡ none
    → observe_sa ((k, w) ∷ rest) key counter ≡ rest ++ ((key, first counter) ∷ [])
unfolding observe_sa
observe_sa-ninth k w rest key counter n fresh =
    rw fresh (ground (arith, length-append rest ((key, first counter) ∷ [])))

-- What the windows have expected together.
abbrev pub sum_expected : SaWindows → ℕ
sum_expected [] = 0
sum_expected ((k, w) ∷ rest) = w.expected + sum_expected rest

sum_expected-append :
    (es : SaWindows) (k : ℕ) (w : CounterWindow)
    → sum_expected (es ++ ((k, w) ∷ [])) ≡ sum_expected es + w.expected
sum_expected-append [] k w = omega arith
sum_expected-append ((j, v) ∷ es) k w = omega (arith, sum_expected-append es k w)

totals_from-expected :
    (t : Totals) (es : SaWindows)
    → t.expected ≤ u64_max
    → (totals_from t es).expected ≡ min (t.expected + sum_expected es) u64_max
unfolding totals_from
totals_from-expected t [] h = omega arith
totals_from-expected t ((k, w) ∷ rest) h =
    omega (arith, totals_from-expected (add_window t w) rest (omega arith))

-- Below 2 ^ 64, the total is the sum of the windows.
pub totals-expected : (es : SaWindows) → (totals es).expected ≡ min (sum_expected es) u64_max
unfolding totals
totals-expected es = omega (
  arith,
  totals_from-expected (record { expected = 0; seen = 0; dup = 0; resets = 0 }) es (omega arith),
)

-- The totals are not monotone: when a ninth key arrives, the oldest window is dropped with all that
-- it counted, and the total of `expected` falls whenever that window had expected more than one
-- frame and the sum is below 2 ^ 64.
pub totals_shrink :
    (k : ℕ) (w : CounterWindow) (rest : SaWindows) (key counter : ℕ)
    → length rest ≡ 7
    → observe_known ((k, w) ∷ rest) key counter ≡ none
    → 1 < w.expected
    → sum_expected ((k, w) ∷ rest) ≤ u64_max
    → (totals (observe_sa ((k, w) ∷ rest) key counter)).expected < (totals ((k, w) ∷ rest)).expected
unfolding first
totals_shrink k w rest key counter n fresh many h = omega (
  arith,
  ap (λ es. (totals es).expected) (observe_sa-ninth k w rest key counter n fresh),
  totals-expected (rest ++ ((key, first counter) ∷ [])),
  totals-expected ((k, w) ∷ rest),
  sum_expected-append rest key (first counter),
)
