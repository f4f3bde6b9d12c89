-- ===== src/Compat/Mss/Laws.antt =====
-- What the clamp leaves of a packet.
use ipv_8_public_base_statio.Common.{
  ℕ, ◌+◌, ◌/◌, ◌%◌, ◌≤◌, ◌<◌, ◌≡◌, ◌≢◌, refl, ap, sym, ◌∙◌, List, ◌++◌, length, take, drop, set,
  get_or, arith, length-set, length-take, ◌==◌, get_or-set_same, get_or-set_other, set-append_left,
  take-append-drop, Bool-cases, inl, inr,
}
use ipv_8_public_base_statio.Compat.Checksum.{ip_header_checksum}
use ipv_8_public_base_statio.Compat.Checksum.Laws.{header_left, set-set}
use ipv_8_public_base_statio.Compat.Ip.{ip_version}
use ipv_8_public_base_statio.Compat.Mss.{mss_at, put_be16, recompute_checksums, recompute_ip}

put_be16-other :
    (p : List ℕ) (at i v : ℕ) → i ≢ at → i ≢ at + 1 → get_or (put_be16 p at v) i 0 ≡ get_or p i 0
put_be16-other p at i v e f =
    get_or-set_other (set p at (v / 256 % 256)) (at + 1) i (v % 256) 0 (λ h. f (sym h))
    ∙ get_or-set_other p at i (v / 256 % 256) 0 (λ h. e (sym h))

pub length-put_be16 : (p : List ℕ) (at v : ℕ) → length (put_be16 p at v) ≡ length p
length-put_be16 p at v =
    length-set (set p at (v / 256 % 256)) (at + 1) (v % 256) ∙ length-set p at (v / 256 % 256)

mss_at-put_be16 :
    (p : List ℕ) (pos v : ℕ)
    → pos + 4 ≤ length p
    → v < 65536
    → mss_at (put_be16 p (pos + 2) v) pos ≡ v
mss_at-put_be16 p pos v fits small =
    let first : get_or (put_be16 p (pos + 2) v) (pos + 2) 0 ≡ v / 256 % 256 =
      get_or-set_other (set p (pos + 2) (v / 256 % 256)) (pos + 2 + 1) (pos + 2) (v % 256) 0
        (λ h. omega (arith, h))
      ∙ get_or-set_same p (pos + 2) (v / 256 % 256) 0 (omega arith) in
    let second : get_or (put_be16 p (pos + 2) v) (pos + 2 + 1) 0 ≡ v % 256 =
      get_or-set_same (set p (pos + 2) (v / 256 % 256)) (pos + 2 + 1) (v % 256) 0
        (omega (arith, length-set p (pos + 2) (v / 256 % 256))) in
    let there : get_or (put_be16 p (pos + 2) v) (pos + 3) 0 ≡ v % 256 =
      ap (λ (n : ℕ). get_or (put_be16 p (pos + 2) v) n 0) {x = pos + 3} {y = pos + 2 + 1}
        (omega arith)
      ∙ second in
    omega (arith, first, there)

-- The header checksum leaves nothing else behind than its own two bytes.
abbrev pub header_word : List ℕ → ℕ → ℕ
header_word p l = (ip_header_checksum (take l p)).0

pub recompute_ip_lem :
    (p : List ℕ) (l : ℕ)
    → 20 ≤ l
    → l ≤ length p
    → recompute_ip p l ≡ put_be16 p 10 (header_word p l)
unfolding recompute_ip
recompute_ip_lem p l least fits =
    let c : ℕ = header_word p l in
    let len : length (take l p) ≡ l = length-take l p ∙ omega arith in
    let cleared : set (set (take l p) 10 0) 11 0 ++ drop l p ≡ set (set p 10 0) 11 0 =
      set-append_left (set (take l p) 10 0) (drop l p) 11 0
        (omega (arith, length-set (take l p) 10 0, len))
      ∙ ap (λ (t : List ℕ). set t 11 0)
          (set-append_left (take l p) (drop l p) 10 0 (omega (arith, len))
            ∙ ap (λ (t : List ℕ). set t 10 0) (take-append-drop l p)) in
    elim (header_left (take l p)) [
      | inl same ↦
          ap (λ (t : List ℕ). put_be16 t 10 c)
            (ap (λ (t : List ℕ). t ++ drop l p) same ∙ take-append-drop l p)
      | inr zeroed ↦
          ap (λ (t : List ℕ). put_be16 t 10 c) (ap (λ (t : List ℕ). t ++ drop l p) zeroed ∙ cleared)
          ∙ set-set p 10 0 0 (c / 256 % 256) (c % 256)
    ]

-- Only the two checksums are written.
pub recompute_checksums-other :
    (p : List ℕ) (l i : ℕ)
    → 20 ≤ l
    → l ≤ length p
    → i ≢ 10
    → i ≢ 11
    → i ≢ l + 16
    → i ≢ l + 17
    → get_or (recompute_checksums p l) i 0 ≡ get_or p i 0
unfolding recompute_checksums
recompute_checksums-other p l i least fits a b c d = elim (Bool-cases (ip_version p == 4)) [
  | inl v4 ↦
      rw (v4, recompute_ip_lem p l least fits)
        (put_be16-other (put_be16 p 10 (header_word p l)) (l + 16) i _ c (λ e. d (omega (arith, e)))
          ∙ put_be16-other p 10 i (header_word p l) a b)
  | inr not_v4 ↦ elim (Bool-cases (ip_version p == 6)) [
    | inl v6 ↦ rw (not_v4, v6) (put_be16-other p (l + 16) i _ c (λ e. d (omega (arith, e))))
    | inr other ↦ rw (not_v4, other) refl
  ]
]

pub length-recompute_checksums :
    (p : List ℕ) (l : ℕ) → 20 ≤ l → l ≤ length p → length (recompute_checksums p l) ≡ length p
unfolding recompute_checksums
length-recompute_checksums p l least fits = elim (Bool-cases (ip_version p == 4)) [
  | inl v4 ↦
      rw (v4, recompute_ip_lem p l least fits)
        (length-put_be16 (put_be16 p 10 (header_word p l)) (l + 16) _
          ∙ length-put_be16 p 10 (header_word p l))
  | inr not_v4 ↦ elim (Bool-cases (ip_version p == 6)) [
    | inl v6 ↦ rw (not_v4, v6) (length-put_be16 p (l + 16) _)
    | inr other ↦ rw (not_v4, other) refl
  ]
]

-- The packet with the MSS `v` at `pos`, and with its checksums.
abbrev pub clamped : List ℕ → ℕ → ℕ → ℕ → List ℕ
clamped p l pos v = recompute_checksums (put_be16 p (pos + 2) v) l

module _ (p : List ℕ) (l pos v : ℕ) (least : 20 ≤ l) (behind_header : l + 20 ≤ pos)
    (fits : pos + 4 ≤ length p) where
  pub length-clamped : length (clamped p l pos v) ≡ length p
  length-clamped =
      length-recompute_checksums (put_be16 p (pos + 2) v) l least
        (omega (arith, length-put_be16 p (pos + 2) v))
      ∙ length-put_be16 p (pos + 2) v

  pub clamped-other :
      (i : ℕ)
      → i ≢ 10
      → i ≢ 11
      → i ≢ l + 16
      → i ≢ l + 17
      → i ≢ pos + 2
      → i ≢ pos + 3
      → get_or (clamped p l pos v) i 0 ≡ get_or p i 0
  clamped-other i a b c d e f =
      recompute_checksums-other (put_be16 p (pos + 2) v) l i least
        (omega (arith, length-put_be16 p (pos + 2) v)) a b c d
      ∙ put_be16-other p (pos + 2) i v e (λ h. f (omega (arith, h)))

  pub clamped-mss_at : v < 65536 → mss_at (clamped p l pos v) pos ≡ v
  clamped-mss_at small =
      let q : List ℕ = put_be16 p (pos + 2) v in
      let within : l ≤ length q = omega (arith, length-put_be16 p (pos + 2) v) in
      rw (kept (pos + 2) within (omega arith), kept (pos + 3) within (omega arith))
        (mss_at-put_be16 p pos v fits small)
    where
      kept :
          (i : ℕ)
          → l ≤ length (put_be16 p (pos + 2) v)
          → l + 20 < i
          → get_or (clamped p l pos v) i 0 ≡ get_or (put_be16 p (pos + 2) v) i 0
      kept i within far =
          recompute_checksums-other (put_be16 p (pos + 2) v) l i least within
            (λ e. omega (arith, e)) (λ e. omega (arith, e)) (λ e. omega (arith, e))
            (λ e. omega (arith, e))
