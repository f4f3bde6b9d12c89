-- ===== src/Fec/Recovery.antt =====
-- One lost frame of a group is rebuilt from the recovery frame and the other frames.
use ipv_8_public_base_statio.Common.{
  ℕ, zero, suc, ◌+◌, ◌*◌, ◌^◌, ◌≤◌, ◌<◌, ◌≡◌, refl, ap, sym, ◌∙◌, bit_xor, List, [], ◌∷◌, none,
  some, false, length, get_or, take, drop, contains, All, arith, le→ltb, ==_refl, subst, ok,
}
use ipv_8_public_base_statio.Fec.Sender.{FecTx, encode_recovery}
use ipv_8_public_base_statio.Fec.Sender.Group.{
  Frames, IsFrame, IsIdle, add_all, add_all-IsGroup, counter_of, counters_of, sizes,
  data_counter-long,
}
use ipv_8_public_base_statio.Fec.Receiver.{
  Cache, FecRx, max_of, check_head, check_members, scan, xor_others, rebuild, decide,
  accept_recovery, remember,
}
use ipv_8_public_base_statio.Fec.Xor.{take-bytes, xor_at, xor_but, xor_at-xor_but}
use ipv_8_public_base_statio.Fec.Table.{
  IsEncodable, after_table, check_head-frame, check_members-frame,
}
use ipv_8_public_base_statio.Fec.Missing.{
  AllBut, AllWithin, IsXor, scan-but, some_at, within_max, xor_others-but,
}

-- A data frame: its length fits a u16, it starts with the version and the type of data, and the
-- number that stands for its counter fits a u64, as 8 bytes do.
pub record IsData (f : List ℕ) : Type 0 where
  pub fits : IsFrame f
  pub version_byte : get_or f 0 0 ≡ 1
  pub type_byte : get_or f 1 0 ≡ 2
  pub counter_fits : counter_of f < 256 ^ 8

AllBut-lt : (cache : Cache) (fs : Frames) (j : ℕ) → AllBut cache fs j → j < length fs
AllBut-lt cache [] j h = absurd h
AllBut-lt cache (f ∷ fs) zero h = omega arith
AllBut-lt cache (f ∷ fs) (suc j) (hf, h) = omega (arith, AllBut-lt cache fs j h)

All-at : (P : List ℕ → Type 0) (fs : Frames) (j : ℕ) → All P fs → j < length fs → P (get_or fs j [])
All-at P [] j h lt = absurd (omega arith)
All-at P (f ∷ fs) zero (hf, h) lt = hf
All-at P (f ∷ fs) (suc j) (hf, h) lt = All-at P fs j h (omega arith)

get_or-sizes :
    (fs : Frames) (j : ℕ) → j < length fs → get_or (sizes fs) j 0 ≡ length (get_or fs j [])
get_or-sizes [] j lt = absurd (omega arith)
get_or-sizes (f ∷ fs) zero lt = refl
get_or-sizes (f ∷ fs) (suc j) lt = get_or-sizes fs j (omega arith)

get_or-counters_of :
    (fs : Frames) (j : ℕ)
    → j < length fs
    → get_or (counters_of fs) j 0 ≡ counter_of (get_or fs j [])
get_or-counters_of [] j lt = absurd (omega arith)
get_or-counters_of (f ∷ fs) zero lt = refl
get_or-counters_of (f ∷ fs) (suc j) lt = get_or-counters_of fs j (omega arith)

rebuild-lost :
    (cache : Cache) (fs : Frames) (j : ℕ) (acc : List ℕ)
    → All IsData fs
    → AllBut cache fs j
    → length acc ≡ max_of (sizes fs)
    → ((i : ℕ) → get_or acc i 0 ≡ xor_at fs i)
    → rebuild cache (counters_of fs) (sizes fs) acc j ≡ ok (get_or fs j [])
unfolding rebuild
rebuild-lost cache fs j acc hd but size bytes =
    let lt = AllBut-lt cache fs j but in
    let f : List ℕ = get_or fs j [] in
    let d : IsData f = All-at IsData fs j hd lt in
    let recon : List ℕ = xor_others cache (counters_of fs) j 0 acc in
    let x : IsXor acc recon (xor_but fs j) =
      xor_others-but cache fs j 0 j acc (omega arith)
        (subst (λ n. AllWithin n fs) (sym size) (within_max fs)) but in
    let small : length f ≤ max_of (sizes fs) =
      All-at (λ g. length g ≤ max_of (sizes fs)) fs j (within_max fs) lt in
    let long : length f ≤ length recon = omega (arith, x.same_length) in
    let cut : take (length f) recon ≡ f = take-bytes recon f long (λ i h.
      x.bytes i ∙ ap (λ a. bit_xor a (xor_but fs j i)) (bytes i) ∙ xor_at-xor_but fs j i lt) in
    rw
      (
        get_or-sizes fs j lt,
        le→ltb (length recon) (length f) long,
        cut,
        d.version_byte,
        d.type_byte,
        data_counter-long f (d.fits.0),
        get_or-counters_of fs j lt,
        ==_refl (counter_of f),
      )
      refl

frames_of : (fs : Frames) → All IsData fs → All IsFrame fs
frames_of [] h = tt
frames_of (f ∷ fs) (d, h) = (d.fits, frames_of fs h)

lens_fit_of : (fs : Frames) → All IsData fs → All (λ l. (74 ≤ l) × (l < 65536)) (sizes fs)
lens_fit_of [] h = tt
lens_fit_of (f ∷ fs) (d, h) = ((d.fits.0, omega (arith, d.fits.1)), lens_fit_of fs h)

counters_fit_of : (fs : Frames) → All IsData fs → All (λ c. c < 256 ^ 8) (counters_of fs)
counters_fit_of [] h = tt
counters_fit_of (f ∷ fs) (d, h) = (d.counter_fits, counters_fit_of fs h)

length-counters_of : (fs : Frames) → length (counters_of fs) ≡ length fs
length-counters_of [] = refl
length-counters_of (f ∷ fs) = ap suc (length-counters_of fs)

length-sizes : (fs : Frames) → length (sizes fs) ≡ length fs
length-sizes [] = refl
length-sizes (f ∷ fs) = ap suc (length-sizes fs)

-- A group of 2 to 16 data frames, an idle sender and a key of 8 bytes.
pub record IsSent (t : FecTx) (fs : Frames) (key : List ℕ) : Type 0 where
  pub idle : IsIdle t
  pub are_data : All IsData fs
  pub key_size : length key ≡ 8
  pub size_ge : 2 ≤ length fs
  pub size_le : length fs ≤ 16
  pub seq_fits : t.group_seq < 256 ^ 8

sent-IsEncodable :
    (t : FecTx) (fs : Frames) (key : List ℕ) → IsSent t fs key → IsEncodable (add_all t fs) key
sent-IsEncodable t fs key h =
    let g = add_all-IsGroup t fs h.idle (frames_of fs h.are_data) in
    let n : length (add_all t fs).counters ≡ length fs =
      ap length g.counters_eq ∙ length-counters_of fs in
    record {
      key_size = h.key_size;
      size_ge = omega (arith, n, h.size_ge);
      size_le = omega (arith, n, h.size_le);
      same_size = ap length g.lens_eq ∙ length-sizes fs ∙ sym n;
      seq_fits = subst (λ s. s < 256 ^ 8) (sym g.seq_eq) h.seq_fits;
      counters_fit =
          subst (All (λ c. c < 256 ^ 8)) (sym g.counters_eq) (counters_fit_of fs h.are_data);
      lens_fit =
          subst (All (λ l. (74 ≤ l) × (l < 65536))) (sym g.lens_eq) (lens_fit_of fs h.are_data);
      acc_size = g.acc_length ∙ ap max_of (sym g.lens_eq);
    }

-- The receiver after a rebuilt group.
abbrev pub after_rebuilt : FecRx → ℕ → FecRx
after_rebuilt r g = record r { seen_groups = remember r.seen_groups g; recovered = r.recovered + 1 }

-- The lost frame comes back byte for byte. An idle sender collects a group of 2 to 16 data frames
-- and encodes the recovery frame. When the receiver's cache holds all the frames of the group but
-- the one at index `j`, whose counter it does not know, and the group's number is new to it, then
-- `accept_recovery` returns the frame at index `j`, remembers the group and counts one recovery.
pub accept_recovery-encode_recovery :
    (t : FecTx) (fs : Frames) (key : List ℕ) (r : FecRx) (j : ℕ)
    → IsSent t fs key
    → contains r.seen_groups t.group_seq ≡ false
    → AllBut r.cache fs j
    → accept_recovery r (encode_recovery (add_all t fs) key)
      ≡ (after_rebuilt r t.group_seq, ok (some (get_or fs j [])))
unfolding accept_recovery decide
accept_recovery-encode_recovery t fs key r j h new but =
    let g : FecTx = add_all t fs in
    let e : IsEncodable g key = sent-IsEncodable t fs key h in
    let group = add_all-IsGroup t fs h.idle (frames_of fs h.are_data) in
    let n : length g.counters ≡ length fs = ap length group.counters_eq ∙ length-counters_of fs in
    let frame : List ℕ = encode_recovery g key in
    let head : check_head frame ≡ ok (t.group_seq, length fs) =
      check_head-frame g key e
      ∙ ap (λ s. ok (s, length g.counters)) group.seq_eq
      ∙ ap (λ k. ok (t.group_seq, k)) n in
    let members : check_members frame (length fs) ≡ ok (counters_of fs, sizes fs) =
      ap (check_members frame) (sym n)
      ∙ check_members-frame g key e
      ∙ ap (λ cs. ok (cs, g.lens)) group.counters_eq
      ∙ ap (λ ls. ok (counters_of fs, ls)) group.lens_eq in
    let segment : drop (22 + length fs * 10) frame ≡ g.acc =
      ap (λ k. drop (22 + k * 10) frame) (sym n) ∙ after_table g key e in
    let lost : scan r.cache (counters_of fs) 0 none 0 ≡ (some j, 1) =
      scan-but r.cache fs 0 j but ∙ some_at 1 (omega arith) in
    let back = rebuild-lost r.cache fs j g.acc h.are_data but group.acc_length group.acc_at in
    rw (head, new, members, segment, lost, back) refl
