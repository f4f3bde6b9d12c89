-- ===== src/Fec/Dedup.antt =====
-- A recovery frame that arrives twice (src/core/ipv8-fec/src/rx.rs).
use ipv_8_public_base_statio.Common.{
  ℕ, zero, suc, ◌+◌, ◌-◌, ◌*◌, ◌≤◌, ◌≡◌, refl, ap, sym, List, [], ◌∷◌, ◌++◌, Option, none, some,
  true, length, drop, contains, arith, Bool-cases, inl, inr, ==_refl, Result, ok, err, diverged,
  subst,
}
use ipv_8_public_base_statio.Fec.{FecError}
use ipv_8_public_base_statio.Fec.Receiver.{
  FecRx, accept_recovery, check_head, check_members, count_rebuilt, decide, on_head, on_members,
  rebuild, remember, scan, fixed_end,
}

abbrev Outcome : Type 0
Outcome = FecRx × Result FecError (Option (List ℕ))

contains_last :
    (xs : List ℕ) (n g : ℕ) → n ≤ length xs → contains (drop n (xs ++ (g ∷ []))) g ≡ true
contains_last [] zero g h = rw (==_refl g) refl
contains_last [] (suc n) g h = absurd (omega arith)
contains_last (x ∷ xs) zero g h = ground (arith, contains_last xs 0 g)
contains_last (x ∷ xs) (suc n) g h = contains_last xs n g (omega arith)

count_rebuilt-seen :
    (r : FecRx) (res : Result FecError (List ℕ))
    → (count_rebuilt r res).0.seen_groups ≡ r.seen_groups
count_rebuilt-seen r (ok recon) = refl
count_rebuilt-seen r (err e) = refl
count_rebuilt-seen r diverged = refl

decide-seen :
    (r : FecRx) (cs ls seg : List ℕ) (m : Option ℕ) (n : ℕ)
    → (decide r cs ls seg (m, n)).0.seen_groups ≡ r.seen_groups
unfolding decide
decide-seen r cs ls seg m zero = refl
decide-seen r cs ls seg none (suc zero) = refl
decide-seen r cs ls seg (some i) (suc zero) = count_rebuilt-seen r (rebuild r.cache cs ls seg i)
decide-seen r cs ls seg m (suc (suc n)) = refl

-- The group that a call of `accept_recovery` with this frame and result has remembered.
record IsSeen (h : Result FecError (ℕ × ℕ)) (after : FecRx) : Type 0 where
  group : ℕ
  size : ℕ
  head_eq : h ≡ ok (group, size)
  seen : contains after.seen_groups group ≡ true

seen_of :
    (x after : FecRx) (g : ℕ) {a b : Result FecError (Option (List ℕ))}
    → ◌≡◌ {A = Outcome} (x, a) (after, b)
    → contains x.seen_groups g ≡ true
    → contains after.seen_groups g ≡ true
seen_of x after g e h =
    let same : x ≡ after = ap (λ p. p.0) e in subst (λ y. contains y.seen_groups g ≡ true) same h

no_error :
    {x after : FecRx} (e : FecError) {out : Option (List ℕ)}
    → ◌≡◌ {A = Outcome} (x, err e) (after, ok out)
    → ⊥
no_error e h = cc

no_divergence :
    {x after : FecRx} {out : Option (List ℕ)} → ◌≡◌ {A = Outcome} (x, diverged) (after, ok out) → ⊥
no_divergence h = cc

contains-remember : (groups : List ℕ) (g : ℕ) → contains (remember groups g) g ≡ true
contains-remember groups g = contains_last groups (length groups + 1 - 128) g (omega arith)

on_members-seen :
    (r : FecRx) (frame : List ℕ) (g k : ℕ) (ms : Result FecError (List ℕ × List ℕ)) (after : FecRx)
    (out : Option (List ℕ))
    → ◌≡◌ {A = Outcome} (on_members r frame g k ms) (after, ok out)
    → contains after.seen_groups g ≡ true
on_members-seen r frame g k (err e) after out h = absurd (no_error e h)
on_members-seen r frame g k diverged after out h = absurd (no_divergence h)
on_members-seen r frame g k (ok (cs, ls)) after out h =
    let r' : FecRx = record r { seen_groups = remember r.seen_groups g } in
    let found = scan r.cache cs 0 none 0 in
    let seg : List ℕ = drop (fixed_end + k * 10) frame in
    let kept = decide-seen r' cs ls seg found.0 found.1 in
    seen_of (decide r' cs ls seg found).0 after g h
      (subst (λ gs. contains gs g ≡ true) (sym kept) (contains-remember r.seen_groups g))

on_head-IsSeen :
    (r : FecRx) (frame : List ℕ) (h : Result FecError (ℕ × ℕ)) (after : FecRx)
    (out : Option (List ℕ))
    → ◌≡◌ {A = Outcome} (on_head r frame h) (after, ok out)
    → IsSeen h after
on_head-IsSeen r frame (err e) after out h = absurd (no_error e h)
on_head-IsSeen r frame diverged after out h = absurd (no_divergence h)
on_head-IsSeen r frame (ok (g, k)) after out h = elim (Bool-cases (contains r.seen_groups g)) [
  | inl again ↦ record {
    group = g;
    size = k;
    head_eq = refl;
    seen = seen_of (record r { dup_recovery = r.dup_recovery + 1 }) after g (rw again at h) again;
  }
  | inr new ↦ record {
    group = g;
    size = k;
    head_eq = refl;
    seen = on_members-seen r frame g k (check_members frame k) after out (rw new at h);
  }
]

-- A recovery frame that has been accepted without an error is a duplicate the next time: the second
-- call rebuilds nothing, returns no error, and only counts one duplicate.
pub accept_recovery-accept_recovery :
    (r after : FecRx) (frame : List ℕ) (out : Option (List ℕ))
    → ◌≡◌ {A = FecRx × Result FecError (Option (List ℕ))} (accept_recovery r frame) (after, ok out)
    → accept_recovery after frame
      ≡ (record after { dup_recovery = after.dup_recovery + 1 }, ok none)
unfolding accept_recovery
accept_recovery-accept_recovery r after frame out h =
    let s : IsSeen (check_head frame) after =
      on_head-IsSeen r frame (check_head frame) after out h in
    rw (s.head_eq, s.seen) refl
