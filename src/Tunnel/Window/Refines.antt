-- ===== src/Tunnel/Window/Refines.antt =====
-- The window answers as if it remembered every counter that it accepted.
use ipv_8_public_base_statio.Common.{
  ℕ, ◌+◌, ◌-◌, ◌≤◌, ◌<◌, ◌≡◌, ◌≢◌, refl, ap, sym, subst, ◌∙◌, Bool, true, false, ◌||◌, List, [],
  ◌∷◌, ltb, leb, ◌==◌, if◌then◌else◌, contains, inl, inr, Bool-cases, arith, ==_ne, leb→le, lt→ltb,
}
use ipv_8_public_base_statio.Common.Bits.{put_bit, test_bit}
use ipv_8_public_base_statio.Tunnel.Window.{
  RxWindow, accept, accept_all, new_window, rx_window, shift_in,
}
use ipv_8_public_base_statio.Tunnel.Window.Masks.{
  ==_false, Represents, above-bits, admissible, contains-above, greatest, remember_all, within-bits,
}

-- One counter: the same answer, and the window still stands for what was accepted.
abbrev Agrees : RxWindow × Bool → List ℕ → ℕ → Type 0
Agrees result seen c =
    (result.1 ≡ admissible seen c)
    × Represents result.0 (if admissible seen c then c ∷ seen else seen)

refused :
    (w : RxWindow) (seen : List ℕ) (c : ℕ)
    → Represents w seen
    → admissible seen c ≡ false
    → Agrees (w, false) seen c
refused w seen c r no_way = (sym no_way, subst (Represents w) (sym (rw no_way refl)) r)

taken :
    (w : RxWindow) (seen : List ℕ) (c : ℕ)
    → Represents w (c ∷ seen)
    → admissible seen c ≡ true
    → Agrees (w, true) seen c
taken w seen c r fine = (sym fine, subst (Represents w) (sym (rw fine refl)) r)

admissible-new :
    (seen : List ℕ) (c : ℕ)
    → c ≢ 0
    → contains seen c ≡ false
    → greatest seen < c + 127
    → admissible seen c ≡ true
admissible-new seen c some_counter new near =
    rw (==_ne c 0 some_counter, new, lt→ltb (greatest seen) (c + 127) near) refl

admissible-old : (seen : List ℕ) (c : ℕ) → c + 127 ≤ greatest seen → admissible seen c ≡ false
admissible-old seen c far = ground arith

admissible-seen : (seen : List ℕ) (c : ℕ) → contains seen c ≡ true → admissible seen c ≡ false
admissible-seen seen c held = ground arith

admissible-zero : (seen : List ℕ) (c : ℕ) → (c == 0) ≡ true → admissible seen c ≡ false
admissible-zero seen c e = rw e refl

accept-Agrees :
    (w : RxWindow) (seen : List ℕ) (c : ℕ) → Represents w seen → Agrees (accept w c) seen c
unfolding accept
accept-Agrees w seen c r = elim (Bool-cases (c == 0)) [
  | inl zero_counter ↦
      let e : accept w c ≡ (w, false) = rw zero_counter refl in
      subst (λ x. Agrees x seen c) (sym e)
        (refused w seen c r (admissible-zero seen c zero_counter))
  | inr counter ↦ elim (Bool-cases (w.top == 0 || ltb w.top c)) [
    | inl new ↦
        let above : w.top < c = ground arith in
        let w' : RxWindow = record {
          top = c;
          mask = if leb rx_window (c - w.top) then 1 else shift_in w.mask (c - w.top);
        } in
        let e : accept w c ≡ (w', true) = rw (counter, new) refl in
        subst (λ x. Agrees x seen c) (sym e)
          (taken w' seen c
            (record { top_eq = omega (arith, r.top_eq); bits = above-bits w seen c r above })
            (admissible-new seen c (λ z. absurd (omega arith))
              (contains-above seen c (omega (arith, r.top_eq))) (omega (arith, r.top_eq))))
    | inr old ↦
        let below : c ≤ w.top = ground arith in
        let some_counter : c ≢ 0 = λ z. absurd (==_false c 0 counter z) in
        elim (Bool-cases (leb rx_window (w.top - c))) [
          | inl far ↦
              let e : accept w c ≡ (w, false) = rw (counter, old, far) refl in
              subst (λ x. Agrees x seen c) (sym e)
                (refused w seen c r (
                  admissible-old seen c
                    (omega (arith, r.top_eq, leb→le rx_window (w.top - c) far))))
          | inr near ↦
              let close : w.top - c < 127 = ground arith in
              let at_bit : test_bit (w.top - c) w.mask ≡ contains seen c =
                r.bits (w.top - c) close (omega arith) ∙ ap (contains seen) (omega arith) in
              elim (Bool-cases (test_bit (w.top - c) w.mask)) [
                | inl held ↦
                    let e : accept w c ≡ (w, false) = rw (counter, old, near, held) refl in
                    subst (λ x. Agrees x seen c) (sym e)
                      (refused w seen c r (admissible-seen seen c (sym at_bit ∙ held)))
                | inr clear ↦
                    let w' : RxWindow = record w { mask = put_bit (w.top - c) w.mask } in
                    let e : accept w c ≡ (w', true) = rw (counter, old, near, clear) refl in
                    let new : contains seen c ≡ false = sym at_bit ∙ clear in
                    subst (λ x. Agrees x seen c) (sym e)
                      (taken w' seen c
                        (record {
                          top_eq = omega (arith, r.top_eq);
                          bits = λ k. within-bits w seen c k r some_counter below close new;
                        })
                        (admissible-new seen c some_counter new (omega (arith, r.top_eq))))
              ]
        ]
  ]
]

accept_all-Represents :
    (cs : List ℕ) (w : RxWindow) (seen : List ℕ)
    → Represents w seen
    → accept_all w cs ≡ remember_all seen cs
unfolding accept_all
accept_all-Represents [] w seen r = refl
accept_all-Represents (c ∷ cs) w seen r =
    let (answer, kept) = accept-Agrees w seen c r in
    λ i.
      answer i
      ∷ accept_all-Represents cs (accept w c).0 (if admissible seen c then c ∷ seen else seen) kept
          i

new_window-Represents : Represents new_window []
new_window-Represents = record { top_eq = refl; bits = λ k small inside. absurd (omega arith) }

-- On every sequence of counters the window of a top and 128 bits gives the answers of a receiver
-- that remembers all counters that it accepted, and refuses 0, those it has accepted before and
-- those that lie 127 or more behind the greatest.
pub accept_all-remember_all : (cs : List ℕ) → accept_all new_window cs ≡ remember_all [] cs
accept_all-remember_all cs = accept_all-Represents cs new_window [] new_window-Represents
