-- ===== src/Codec/Reassembly/Maps.antt =====
-- The association lists of the reassembler: what is found after an insertion, a removal or a
-- clean-up, and what all entries keep.
use ipv_8_public_base_statio.Common.{
  ℕ, ◌≤◌, ◌<◌, ◌≡◌, ◌≢◌, refl, ap, sym, subst, Bool, true, List, [], ◌∷◌, Option, none, some, ◌==◌,
  length, All, retain, inl, inr, Bool-cases, ==_iff, ==_refl, str_eq_refl, str_eq→≡, arith,
}
use ipv_8_public_base_statio.Codec.Reassembly.{
  Group, GroupKey, same_key, find_chunk, put_chunk, remove_chunk, find_group, put_group,
  remove_group,
}

pub same_key_refl : (k : GroupKey) → same_key k k ≡ true
unfolding same_key
same_key_refl k = rw (str_eq_refl k.src, str_eq_refl k.dst, ==_refl k.id) refl

pub same_key→≡ : (k l : GroupKey) → same_key k l ≡ true → k ≡ l
unfolding same_key
same_key→≡ k l h =
    let s : k.src ≡ l.src = str_eq→≡ k.src l.src (ground arith) in
    let d : k.dst ≡ l.dst = str_eq→≡ k.dst l.dst (ground arith) in
    let n : k.id ≡ l.id = ground arith in ground arith

-- Chunks.
module _ {κ} (Holds : ℕ × List ℕ → Type κ) where
  pub All-put_chunk :
      (k : ℕ) (v : List ℕ) (cs : List (ℕ × List ℕ))
      → Holds (k, v)
      → All Holds cs
      → All Holds (put_chunk k v cs)
  unfolding put_chunk
  All-put_chunk k v [] here others = (here, tt)
  All-put_chunk k v ((s, b) ∷ cs) here others = elim (Bool-cases (s == k)) [
    | inl same ↦ rw same (here, others.1)
    | inr other ↦ rw other (others.0, All-put_chunk k v cs here others.1)
  ]

  pub All-remove_chunk :
      (k : ℕ) (cs : List (ℕ × List ℕ)) → All Holds cs → All Holds (remove_chunk k cs)
  unfolding remove_chunk
  All-remove_chunk k [] all = tt
  All-remove_chunk k ((s, b) ∷ cs) all = elim (Bool-cases (s == k)) [
    | inl same ↦ rw same (All-remove_chunk k cs all.1)
    | inr other ↦ rw other (all.0, All-remove_chunk k cs all.1)
  ]

  pub All-find_chunk :
      (k : ℕ) (cs : List (ℕ × List ℕ)) (v : List ℕ)
      → find_chunk k cs ≡ some v
      → All Holds cs
      → Holds (k, v)
  unfolding find_chunk
  All-find_chunk k [] v e all = cc
  All-find_chunk k ((s, b) ∷ cs) v e all = elim (Bool-cases (s == k)) [
    | inl same ↦
        let hit : b ≡ v = inner (rw same at e) in
        subst (λ x. Holds (k, x)) hit (subst (λ x. Holds (x, b)) ((==_iff s k).0 same) all.0)
    | inr other ↦ All-find_chunk k cs v (rw other at e) all.1
  ]
    where
      inner : some b ≡ some v → b ≡ v
      inner h = cc

pub find_chunk-put_same :
    (k : ℕ) (v : List ℕ) (cs : List (ℕ × List ℕ)) → find_chunk k (put_chunk k v cs) ≡ some v
unfolding find_chunk put_chunk
find_chunk-put_same k v [] = rw (==_refl k) refl
find_chunk-put_same k v ((s, b) ∷ cs) = elim (Bool-cases (s == k)) [
  | inl same ↦ rw (same, ==_refl k) refl
  | inr other ↦ rw (other, other) (find_chunk-put_same k v cs)
]

pub find_chunk-put_other :
    (k j : ℕ) (v : List ℕ) (cs : List (ℕ × List ℕ))
    → k ≢ j
    → find_chunk j (put_chunk k v cs) ≡ find_chunk j cs
unfolding find_chunk put_chunk
find_chunk-put_other k j v [] h = ground arith
find_chunk-put_other k j v ((s, b) ∷ cs) h = ground (arith, find_chunk-put_other k j v cs h)

pub length-remove_chunk_le :
    (k : ℕ) (cs : List (ℕ × List ℕ)) → length (remove_chunk k cs) ≤ length cs
unfolding remove_chunk
length-remove_chunk_le k [] = omega arith
length-remove_chunk_le k ((s, b) ∷ cs) = ground (arith, length-remove_chunk_le k cs)

pub length-remove_chunk_lt :
    (k : ℕ) (cs : List (ℕ × List ℕ)) (v : List ℕ)
    → find_chunk k cs ≡ some v
    → length (remove_chunk k cs) < length cs
unfolding remove_chunk find_chunk
length-remove_chunk_lt k [] v e = absurd (never e)
  where
    never : ◌≡◌ {A = Option (List ℕ)} none (some v) → ⊥
    never h = cc
length-remove_chunk_lt k ((s, b) ∷ cs) v e = elim (Bool-cases (s == k)) [
  | inl same ↦ rw same (omega (arith, length-remove_chunk_le k cs))
  | inr other ↦ rw other (omega (arith, length-remove_chunk_lt k cs v (rw other at e)))
]

-- Groups.
module _ {κ} (Holds : GroupKey × Group → Type κ) where
  pub All-put_group :
      (k : GroupKey) (v : Group) (gs : List (GroupKey × Group))
      → Holds (k, v)
      → All Holds gs
      → All Holds (put_group k v gs)
  unfolding put_group
  All-put_group k v [] here others = (here, tt)
  All-put_group k v ((l, g) ∷ gs) here others = elim (Bool-cases (same_key l k)) [
    | inl same ↦ rw same (subst (λ x. Holds (x, v)) (sym (same_key→≡ l k same)) here, others.1)
    | inr other ↦ rw other (others.0, All-put_group k v gs here others.1)
  ]

  pub All-remove_group :
      (k : GroupKey) (gs : List (GroupKey × Group)) → All Holds gs → All Holds (remove_group k gs)
  unfolding remove_group
  All-remove_group k [] all = tt
  All-remove_group k ((l, g) ∷ gs) all = elim (Bool-cases (same_key l k)) [
    | inl same ↦ rw same (All-remove_group k gs all.1)
    | inr other ↦ rw other (all.0, All-remove_group k gs all.1)
  ]

  pub All-find_group :
      (k : GroupKey) (gs : List (GroupKey × Group)) (v : Group)
      → find_group k gs ≡ some v
      → All Holds gs
      → Holds (k, v)
  unfolding find_group
  All-find_group k [] v e all = cc
  All-find_group k ((l, g) ∷ gs) v e all = elim (Bool-cases (same_key l k)) [
    | inl same ↦
        subst (λ x. Holds (k, x)) (inner (rw same at e))
          (subst (λ x. Holds (x, g)) (same_key→≡ l k same) all.0)
    | inr other ↦ All-find_group k gs v (rw other at e) all.1
  ]
    where
      inner : some g ≡ some v → g ≡ v
      inner h = cc

  pub All-retain :
      (p : GroupKey × Group → Bool) (gs : List (GroupKey × Group))
      → All Holds gs
      → All Holds (retain p gs)
  All-retain p [] all = tt
  All-retain p (x ∷ gs) all = elim (Bool-cases (p x)) [
    | inl kept ↦ rw kept (all.0, All-retain p gs all.1)
    | inr gone ↦ rw gone (All-retain p gs all.1)
  ]

pub find_group-put_same :
    (k : GroupKey) (v : Group) (gs : List (GroupKey × Group))
    → find_group k (put_group k v gs) ≡ some v
unfolding find_group put_group
find_group-put_same k v [] = rw (same_key_refl k) refl
find_group-put_same k v ((l, g) ∷ gs) = elim (Bool-cases (same_key l k)) [
  | inl same ↦ rw (same, same) refl
  | inr other ↦ rw (other, other) (find_group-put_same k v gs)
]

-- A clean-up leaves a group that it would keep where it is found.
pub find_group-retain :
    (p : GroupKey × Group → Bool) (k : GroupKey) (gs : List (GroupKey × Group)) (v : Group)
    → find_group k gs ≡ some v
    → p (k, v) ≡ true
    → find_group k (retain p gs) ≡ some v
unfolding find_group
find_group-retain p k [] v e kept = e
find_group-retain p k ((l, g) ∷ gs) v e kept = elim (Bool-cases (same_key l k)) [
  | inl same ↦
      let held : g ≡ v = inner (rw same at e) in
      let stays : p (l, g) ≡ true =
        subst (λ x. p (x, g) ≡ true) (sym (same_key→≡ l k same))
          (subst (λ x. p (k, x) ≡ true) (sym held) kept) in
      rw (stays, same) (ap some held)
  | inr other ↦ elim (Bool-cases (p (l, g))) [
    | inl stays ↦ rw (stays, other) (find_group-retain p k gs v (rw other at e) kept)
    | inr gone ↦ rw gone (find_group-retain p k gs v (rw other at e) kept)
  ]
]
  where
    inner : some g ≡ some v → g ≡ v
    inner h = cc

pub find_group-retain_none :
    (p : GroupKey × Group → Bool) (k : GroupKey) (gs : List (GroupKey × Group))
    → find_group k gs ≡ none
    → find_group k (retain p gs) ≡ none
unfolding find_group
find_group-retain_none p k [] e = e
find_group-retain_none p k ((l, g) ∷ gs) e = elim (Bool-cases (same_key l k)) [
  | inl same ↦ absurd (never (rw same at e))
  | inr other ↦ elim (Bool-cases (p (l, g))) [
    | inl stays ↦ rw (stays, other) (find_group-retain_none p k gs (rw other at e))
    | inr gone ↦ rw gone (find_group-retain_none p k gs (rw other at e))
  ]
]
  where
    never : ◌≡◌ {A = Option Group} (some g) none → ⊥
    never h = cc
