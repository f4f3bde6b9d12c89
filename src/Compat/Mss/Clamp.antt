-- ===== src/Compat/Mss/Clamp.antt =====
-- The MSS that is read from a clamped packet.
use ipv_8_public_base_statio.Common.{
  ℕ, ◌+◌, ◌*◌, ◌/◌, ◌%◌, ◌≤◌, ◌<◌, ◌≡◌, ◌≢◌, refl, ap, ◌∙◌, List, length, get_or, arith, Option,
  none, some, not, ltb, ◌==◌, ◌||◌, ◌&&◌, Bool, true, false, Bool-cases, inl, inr, min,
}
use ipv_8_public_base_statio.Common.Words.{has_bit}
use ipv_8_public_base_statio.Compat.Ip.{l4_offset}
use ipv_8_public_base_statio.Compat.Ip.Agrees.{found_least, l4_offset-agrees}
use ipv_8_public_base_statio.Compat.Mss.{
  clamp_at, clamp_mss, clamp_tcp, data_offset, has_options, mss_at, mss_place, read_mss, read_tcp,
}
use ipv_8_public_base_statio.Compat.Mss.Laws.{
  clamped, clamped-mss_at, clamped-other, length-clamped,
}
use ipv_8_public_base_statio.Compat.Mss.Options.{find_mss-agrees, find_mss-within}

-- A packet whose TCP header at `l` holds an MSS option at `pos`.
record HasMss (p : List ℕ) (l pos : ℕ) : Type 0 where
  is_tcp : l4_offset p ≡ (6, l)
  whole : ltb (length p) (l + 20) ≡ false
  options : has_options p l ≡ true
  place : mss_place p l ≡ some pos

read_mss-HasMss : (p : List ℕ) (l pos : ℕ) → HasMss p l pos → read_mss p ≡ some (mss_at p pos)
unfolding read_mss read_tcp
read_mss-HasMss p l pos h = rw (h.is_tcp, h.whole, h.options, h.place) refl

module _ (p : List ℕ) (l pos : ℕ) (small : length p < 18446744073709551615)
    (h : HasMss p l pos) where
  least : 20 ≤ l
  least = found_least p l small h.is_tcp

  place_within : (l + 20 ≤ pos) × (pos + 4 ≤ l + data_offset p l)
  place_within = find_mss-within (data_offset p l) p (l + data_offset p l) (l + 20) pos h.place

  options_inside : l + data_offset p l ≤ length p
  options_inside = inside (length p) (l + data_offset p l) (data_offset p l) h.options
    where
      inside : (n m d : ℕ) → (not (ltb d 20) && not (ltb n m)) ≡ true → m ≤ n
      inside n m d e = ground arith

  fits : pos + 4 ≤ length p
  fits = omega (arith, place_within, options_inside)

  other :
      (v i : ℕ)
      → i ≢ 10
      → i ≢ 11
      → i ≢ l + 16
      → i ≢ l + 17
      → i ≢ pos + 2
      → i ≢ pos + 3
      → get_or (clamped p l pos v) i 0 ≡ get_or p i 0
  other v i = clamped-other p l pos v least place_within.0 fits i

  before : (v i : ℕ) → i < l → i ≢ 10 → i ≢ 11 → get_or (clamped p l pos v) i 0 ≡ get_or p i 0
  before v i lt a b =
      other v i a b (λ e. omega (arith, e)) (λ e. omega (arith, e))
        (λ e. omega (arith, e, place_within)) (λ e. omega (arith, e, place_within))

  inside_options :
      (v i : ℕ) → l + 20 ≤ i → i < pos + 2 → get_or (clamped p l pos v) i 0 ≡ get_or p i 0
  inside_options v i le lt =
      other v i (λ e. omega (arith, e, least)) (λ e. omega (arith, e, least))
        (λ e. omega (arith, e)) (λ e. omega (arith, e)) (λ e. omega (arith, e))
        (λ e. omega (arith, e))

  data_kept : (v : ℕ) → data_offset (clamped p l pos v) l ≡ data_offset p l
  data_kept v =
      ap (λ (b : ℕ). b / 16 % 16 * 4)
        (other v (l + 12) (λ e. omega (arith, e, least)) (λ e. omega (arith, e, least))
          (λ e. omega (arith, e)) (λ e. omega (arith, e)) (λ e. omega (arith, e, place_within))
          (λ e. omega (arith, e, place_within)))

  clamped-HasMss : (v : ℕ) → HasMss (clamped p l pos v) l pos
  clamped-HasMss v =
      let q : List ℕ = clamped p l pos v in
      let len : length q ≡ length p = length-clamped p l pos v least place_within.0 fits in
      record {
        is_tcp = l4_offset-agrees p q l small h.is_tcp (len, before v);
        whole = rw len h.whole;
        options = rw (data_kept v, len) h.options;
        place = rw (data_kept v) (
            find_mss-agrees (data_offset p l) p q (l + data_offset p l) (l + 20) pos h.place
              (inside_options v));
      }

  read_mss-clamped : (v : ℕ) → v < 65536 → read_mss (clamped p l pos v) ≡ some v
  read_mss-clamped v is_word =
      read_mss-HasMss (clamped p l pos v) l pos (clamped-HasMss v)
      ∙ ap some (clamped-mss_at p l pos v least place_within.0 fits is_word)

-- What `clamp_mss` promises: with the answer false the packet is as it was; with true it had an
-- MSS, has the smaller of that and the target now, and is as long as before.
abbrev pub IsClamped : List ℕ → ℕ → Bool × List ℕ → Type 0
IsClamped p target (false, q) = q ≡ p
IsClamped p target (true, q) =
    (m : ℕ) × ((read_mss p ≡ some m) × ((read_mss q ≡ some (min m target)) × (length q ≡ length p)))

clamp_at-IsClamped :
    (p : List ℕ) (target l : ℕ) (o : Option ℕ)
    → length p < 18446744073709551615
    → target < 65536
    → ((pos : ℕ) → o ≡ some pos → HasMss p l pos)
    → IsClamped p target (clamp_at p target l o)
unfolding clamp_at
clamp_at-IsClamped p target l none small is_word has = refl
clamp_at-IsClamped p target l (some pos) small is_word has =
    let h : HasMss p l pos = has pos refl in
    let m : ℕ = mss_at p pos in
    (
      m,
      (
        read_mss-HasMss p l pos h,
        elim (Bool-cases (ltb target m)) [
          | inl above ↦ rw above (
            read_mss-clamped p l pos small h target is_word
                ∙ ap some {x = target} {y = min m target} (smaller m target above),
            length-clamped p l pos target (least p l pos small h) (place_within p l pos small h).0
                (fits p l pos small h),
          )
          | inr below ↦ rw below (
            read_mss-HasMss p l pos h ∙ ap some {x = m} {y = min m target} (kept m target below),
            refl,
          )
        ],
      ),
    )
  where
    smaller : (m t : ℕ) → ltb t m ≡ true → t ≡ min m t
    smaller m t e = ground arith

    kept : (m t : ℕ) → ltb t m ≡ false → m ≡ min m t
    kept m t e = ground arith

clamp_tcp-IsClamped :
    (p : List ℕ) (target : ℕ) (at : ℕ × ℕ)
    → l4_offset p ≡ at
    → length p < 18446744073709551615
    → target < 65536
    → IsClamped p target (clamp_tcp p target at)
unfolding clamp_tcp
clamp_tcp-IsClamped p target (proto, l) e small is_word =
    elim (Bool-cases (not (proto == 6) || ltb (length p) (l + 20))) [
      | inl other ↦ rw other refl
      | inr tcp ↦
          elim (Bool-cases (not (has_bit 2 (get_or p (l + 13) 0)) || not (has_options p l))) [
            | inl plain ↦ rw (tcp, plain) refl
            | inr syn ↦
                rw (tcp, syn)
                  (clamp_at-IsClamped p target l (mss_place p l) small is_word (λ pos there.
                    record {
                      is_tcp = e ∙ ap (λ (n : ℕ). (n, l)) {x = proto} {y = 6} (six proto _ tcp);
                      whole = second (not (proto == 6)) _ tcp;
                      options = third (not (has_bit 2 (get_or p (l + 13) 0))) (has_options p l) syn;
                      place = there;
                    }))
          ]
    ]
  where
    six : (n : ℕ) (b : Bool) → (not (n == 6) || b) ≡ false → n ≡ 6
    six n b h = ground arith

    second : (a b : Bool) → (a || b) ≡ false → b ≡ false
    second a b h = ground arith

    third : (a b : Bool) → (a || not b) ≡ false → b ≡ true
    third a b h = ground arith

-- For a packet whose length is a usize and a target that is a u16: when `clamp_mss` answers false,
-- the packet is as it was; when it answers true, `read_mss` reads the smaller of the MSS before and
-- the target, and the packet is as long as before.
pub clamp_mss-IsClamped :
    (p : List ℕ) (target : ℕ)
    → length p < 18446744073709551615
    → target < 65536
    → IsClamped p target (clamp_mss p target)
unfolding clamp_mss
clamp_mss-IsClamped p target small is_word =
    clamp_tcp-IsClamped p target (l4_offset p) refl small is_word
