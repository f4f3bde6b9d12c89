-- ===== src/Fec/Sender/Group.antt =====
-- What the sender has collected after some frames, and when it emits the recovery frame.
use ipv_8_public_base_statio.Common.{
  ℕ, ◌+◌, ◌-◌, ◌≤◌, ◌<◌, ◌≡◌, refl, ap, sym, ◌∙◌, bit_xor, List, [], ◌∷◌, ◌++◌, append_assoc,
  append-nil, Option, none, some, max, length, get_or, take, drop, All, arith, lt→ltb, le→ltb,
  length-append, Result, ok, ◌>>=◌,
}
use ipv_8_public_base_statio.Common.Bytes.{of_be, u64}
use ipv_8_public_base_statio.Common.Xor.{bit_xor_assoc, bit_xor-zero, bit_xor-zero_left}
use ipv_8_public_base_statio.Fec.{FecError, data_counter}
use ipv_8_public_base_statio.Fec.Sender.{FecTx, push, add_frame, grow, as_u16, encode_recovery}
use ipv_8_public_base_statio.Fec.Receiver.{max_of}
use ipv_8_public_base_statio.Fec.Xor.{
  length-xor_into, get_or-xor_into, length-grow, get_or-grow, xor_at,
}

abbrev pub Frames : Type 0
Frames = List (List ℕ)

-- The counter that `data_counter` reads from a frame that is long enough.
abbrev pub counter_of : List ℕ → ℕ
counter_of f = of_be (take 8 (drop (length f - 24) f))

abbrev pub sizes : Frames → List ℕ
sizes [] = []
sizes (f ∷ fs) = length f ∷ sizes fs

abbrev pub counters_of : Frames → List ℕ
counters_of [] = []
counters_of (f ∷ fs) = counter_of f ∷ counters_of fs

-- Frames that fit a u16 length and are long enough to carry a counter.
abbrev pub IsFrame : List ℕ → Type 0
IsFrame f = (74 ≤ length f) × (length f ≤ 65535)

abbrev pub add_all : FecTx → Frames → FecTx
add_all t [] = t
add_all t (f ∷ fs) = add_all (add_frame t f (counter_of f)) fs

pub data_counter-long : (f : List ℕ) → 74 ≤ length f → data_counter f ≡ ok (counter_of f)
unfolding data_counter
data_counter-long f h = rw (le→ltb (length f) 74 h) refl

add_all-counters :
    (t : FecTx) (fs : Frames) → (add_all t fs).counters ≡ t.counters ++ counters_of fs
unfolding add_frame
add_all-counters t [] = sym (append-nil t.counters)
add_all-counters t (f ∷ fs) =
    add_all-counters (add_frame t f (counter_of f)) fs
    ∙ append_assoc t.counters (counter_of f ∷ []) (counters_of fs)

add_all-lens : (t : FecTx) (fs : Frames) → All IsFrame fs → (add_all t fs).lens ≡ t.lens ++ sizes fs
unfolding add_frame
add_all-lens t [] h = sym (append-nil t.lens)
add_all-lens t (f ∷ fs) ((lo, hi), h) =
    add_all-lens (add_frame t f (counter_of f)) fs h
    ∙ append_assoc t.lens (as_u16 (length f) ∷ []) (sizes fs)
    ∙ ap (λ n. t.lens ++ (n ∷ sizes fs)) fits
  where
    fits : as_u16 (length f) ≡ length f
    fits = ground arith

length-add_all :
    (t : FecTx) (fs : Frames) → length (add_all t fs).acc ≡ max (length t.acc) (max_of (sizes fs))
unfolding add_frame max_of
length-add_all t [] = omega arith
length-add_all t (f ∷ fs) = omega (
  arith,
  length-add_all (add_frame t f (counter_of f)) fs,
  length-xor_into (grow (length f) t.acc) f,
  length-grow (length f) t.acc,
)

add_all-acc :
    (t : FecTx) (fs : Frames) (i : ℕ)
    → get_or (add_all t fs).acc i 0 ≡ bit_xor (get_or t.acc i 0) (xor_at fs i)
unfolding add_frame
add_all-acc t [] i = sym (bit_xor-zero (get_or t.acc i 0))
add_all-acc t (f ∷ fs) i =
    add_all-acc (add_frame t f (counter_of f)) fs i
    ∙ ap (λ x. bit_xor x (xor_at fs i))
        (get_or-xor_into (grow (length f) t.acc) f i (omega (arith, length-grow (length f) t.acc))
          ∙ ap (λ x. bit_xor x (get_or f i 0)) (get_or-grow (length f) t.acc i))
    ∙ bit_xor_assoc (get_or t.acc i 0) (get_or f i 0) (xor_at fs i)

-- A sender with an empty group.
pub record IsIdle (t : FecTx) : Type 0 where
  pub no_acc : t.acc ≡ []
  pub no_counters : t.counters ≡ []
  pub no_lens : t.lens ≡ []

-- What a group of frames is, collected by an idle sender.
pub record IsGroup (t : FecTx) (fs : Frames) (g : FecTx) : Type 0 where
  pub seq_eq : g.group_seq ≡ t.group_seq
  pub counters_eq : g.counters ≡ counters_of fs
  pub lens_eq : g.lens ≡ sizes fs
  pub acc_length : length g.acc ≡ max_of (sizes fs)
  pub acc_at : (i : ℕ) → get_or g.acc i 0 ≡ xor_at fs i

pub add_all-IsGroup :
    (t : FecTx) (fs : Frames) → IsIdle t → All IsFrame fs → IsGroup t fs (add_all t fs)
add_all-IsGroup t fs idle h = record {
  seq_eq = same_seq t fs;
  counters_eq = add_all-counters t fs ∙ ap (λ cs. cs ++ counters_of fs) idle.no_counters;
  lens_eq = add_all-lens t fs h ∙ ap (λ ls. ls ++ sizes fs) idle.no_lens;
  acc_length = omega (arith, length-add_all t fs, ap length idle.no_acc);
  acc_at = λ i.
      add_all-acc t fs i
      ∙ ap (λ acc. bit_xor (get_or acc i 0) (xor_at fs i)) idle.no_acc
      ∙ bit_xor-zero_left (xor_at fs i);
}
  where
    same_seq : (t : FecTx) (fs : Frames) → (add_all t fs).group_seq ≡ t.group_seq
    same_seq t [] = refl
    same_seq t (f ∷ fs) = same_seq (add_frame t f (counter_of f)) fs ∙ unfold add_frame in refl

-- The frames pushed one after the other, with the recovery frames that come out.
abbrev emitted :
    FecTx × Option (List ℕ)
    → (FecTx → Result FecError (FecTx × Frames))
    → Result FecError (FecTx × Frames)
emitted (t, none) more = more t
emitted (t, some r) more = more t >>= λ (t', rs). ok (t', r ∷ rs)

abbrev pub push_all : FecTx → Frames → List ℕ → Result FecError (FecTx × Frames)
push_all t [] key = ok (t, [])
push_all t (f ∷ fs) key = push t f key >>= λ r. emitted r (λ u. push_all u fs key)

-- The sender after a group.
abbrev pub next_group : FecTx → FecTx
next_group t = record t { group_seq = u64 (t.group_seq + 1); acc = []; counters = []; lens = [] }

push-more :
    (t : FecTx) (f key : List ℕ)
    → IsFrame f
    → length t.counters + 1 < t.k
    → push t f key ≡ ok (add_frame t f (counter_of f), none)
unfolding push add_frame
push-more t f key (lo, hi) room =
    rw
      (
        le→ltb (length f) 74 lo,
        data_counter-long f lo,
        lt→ltb (length (t.counters ++ (counter_of f ∷ []))) t.k
            (omega (arith, length-append t.counters (counter_of f ∷ []))),
      )
      refl

push-last :
    (t : FecTx) (f key : List ℕ)
    → IsFrame f
    → length t.counters + 1 ≡ t.k
    → push t f key
      ≡ ok (
        next_group (add_frame t f (counter_of f)),
        some (encode_recovery (add_frame t f (counter_of f)) key),
      )
unfolding push add_frame
push-last t f key (lo, hi) full =
    rw
      (
        le→ltb (length f) 74 lo,
        data_counter-long f lo,
        le→ltb (length (t.counters ++ (counter_of f ∷ []))) t.k
            (omega (arith, length-append t.counters (counter_of f ∷ []))),
      )
      refl

-- The frames that fill the group of a sender, at least one, give exactly one recovery frame, with
-- the last of them, and leave the group empty under the next sequence number.
pub push_all-group :
    (t : FecTx) (f : List ℕ) (fs : Frames) (key : List ℕ)
    → All IsFrame (f ∷ fs)
    → length t.counters + length (f ∷ fs) ≡ t.k
    → push_all t (f ∷ fs) key
      ≡ ok (next_group (add_all t (f ∷ fs)), encode_recovery (add_all t (f ∷ fs)) key ∷ [])
push_all-group t f [] key (hf, h) full = rw (push-last t f key hf (omega arith)) refl
push_all-group t f (g ∷ gs) key (hf, h) full =
    rw
      (
        push-more t f key hf (omega arith),
        push_all-group (add_frame t f (counter_of f)) g gs key h (one_more t f (g ∷ gs) full),
      )
      refl
  where
    one_more :
        (t : FecTx) (f : List ℕ) (fs : Frames)
        → length t.counters + length (f ∷ fs) ≡ t.k
        → length (add_frame t f (counter_of f)).counters + length fs
          ≡ (add_frame t f (counter_of f)).k
    one_more t f fs full =
        unfold add_frame in omega (arith, length-append t.counters (counter_of f ∷ []))
