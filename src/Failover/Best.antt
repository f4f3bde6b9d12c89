-- ===== src/Failover/Best.antt =====
-- The relay that a switch finds (src/core/ipv8-tunnel/src/relay_failover.rs).
use ipv_8_public_base_statio.Common.{
  ℕ, zero, suc, ◌+◌, ◌≤◌, ◌≡◌, ◌⊎◌, inl, inr, refl, ap, sym, ◌∙◌, subst, Bool, true, false, not,
  List, [], ◌∷◌, Option, none, some, leb, ◌==◌, ==_iff, arith, get_elem?, Bool-cases, leb→le,
}
use ipv_8_public_base_statio.Failover.{
  RelayFailover, RelayNode, push_event, best_from, latency_key, switch_to_best,
}

some_inj : (x r : RelayNode) → some x ≡ some r → x ≡ r
some_inj x r e = cc

all_cons :
    (Q : RelayNode → Type 0) (x : RelayNode) (rs : List RelayNode)
    → Q x
    → ((m : ℕ) (r : RelayNode) → get_elem? rs m ≡ some r → Q r)
    → (m : ℕ) (r : RelayNode) → get_elem? (x ∷ rs) m ≡ some r
    → Q r
all_cons Q x rs qx h zero r e = subst Q (some_inj x r e) qx
all_cons Q x rs qx h (suc m) r e = h m r e

-- A healthy relay at an index, with no healthy relay of a smaller key in the list.
pub record IsBest (rs : List RelayNode) (n k : ℕ) : Type 0 where
  pub relay : RelayNode
  pub at_index : get_elem? rs n ≡ some relay
  pub is_up : relay.healthy ≡ true
  pub key_eq : k ≡ latency_key relay.last_latency
  pub least :
      (m : ℕ) (r : RelayNode)
      → get_elem? rs m ≡ some r
      → r.healthy ≡ true
      → k ≤ latency_key r.last_latency

pub found_at : {i j : ℕ} (k : ℕ) → i ≡ j → ◌≡◌ {A = Option (ℕ × ℕ)} (some (i, k)) (some (j, k))
found_at k e = ap (λ n. some (n, k)) e

true-ne-false : {b : Bool} → b ≡ true → b ≡ false → ⊥
true-ne-false h g = cc

pub best_from-IsBest :
    (i : ℕ) (rs : List RelayNode)
    → ((best_from i rs ≡ none)
        × ((m : ℕ) (r : RelayNode) → get_elem? rs m ≡ some r → r.healthy ≡ false))
      ⊎ ((n : ℕ) × (k : ℕ) × (best_from i rs ≡ some (i + n, k)) × IsBest rs n k)
best_from-IsBest i [] = inl (refl, λ m r e. cc)
best_from-IsBest i (x ∷ rs) =
    let kx : ℕ = latency_key x.last_latency in
    elim (Bool-cases x.healthy) [
      | inl up ↦ elim (best_from-IsBest (i + 1) rs) [
        | inl (none_up, down) ↦ inr (
          0,
          kx,
          rw (up, none_up) (found_at kx (omega arith)),
          record {
            relay = x;
            at_index = refl;
            is_up = up;
            key_eq = refl;
            least =
                all_cons (λ r. r.healthy ≡ true → kx ≤ latency_key r.last_latency) x rs
                  (λ h. omega arith) (λ m r e h. absurd (true-ne-false h (down m r e)));
          },
        )
        | inr (n, k, e, b) ↦ elim (Bool-cases (leb kx k)) [
          | inl first ↦ inr (
            0,
            kx,
            rw (up, e, first) (found_at kx (omega arith)),
            record {
              relay = x;
              at_index = refl;
              is_up = up;
              key_eq = refl;
              least =
                  all_cons (λ r. r.healthy ≡ true → kx ≤ latency_key r.last_latency) x rs
                    (λ h. omega arith)
                    (λ m r found h. omega (arith, b.least m r found h, leb→le kx k first));
            },
          )
          | inr later ↦ inr (
            suc n,
            k,
            rw (up, e, later) (found_at k (omega arith)),
            record {
              relay = b.relay;
              at_index = b.at_index;
              is_up = b.is_up;
              key_eq = b.key_eq;
              least =
                  all_cons (λ r. r.healthy ≡ true → k ≤ latency_key r.last_latency) x rs
                    (λ h. leb→ge kx k later) b.least;
            },
          )
        ]
      ]
      | inr off ↦ elim (best_from-IsBest (i + 1) rs) [
        | inl (none_up, down) ↦
            inl (rw off none_up, all_cons (λ r. r.healthy ≡ false) x rs off down)
        | inr (n, k, e, b) ↦ inr (
          suc n,
          k,
          rw off (e ∙ found_at k (omega arith)),
          record {
            relay = b.relay;
            at_index = b.at_index;
            is_up = b.is_up;
            key_eq = b.key_eq;
            least =
                all_cons (λ r. r.healthy ≡ true → k ≤ latency_key r.last_latency) x rs
                  (λ h. absurd (true-ne-false h off)) b.least;
          },
        )
      ]
    ]
  where
    leb→ge : (a b : ℕ) → leb a b ≡ false → b ≤ a
    leb→ge a b h = ground arith

abbrev pub SwitchedToBest : RelayFailover → Type 0
SwitchedToBest f =
    (((m : ℕ) (r : RelayNode) → get_elem? f.relays m ≡ some r → r.healthy ≡ false)
      × ((switch_to_best f).1 ≡ false)
      × ((switch_to_best f).0.active_idx ≡ f.active_idx))
    ⊎ ((n : ℕ) × (k : ℕ) × IsBest f.relays n k
        × ((switch_to_best f).0.relays ≡ f.relays)
        × ((switch_to_best f).0.active_idx ≡ n)
        × ((switch_to_best f).1 ≡ not (n == f.active_idx)))

-- What `switch_to_best` does: without a healthy relay the index stays and the result is false;
-- otherwise the index becomes that of a healthy relay of least latency among the healthy ones, the
-- relays are unchanged, and the result says whether the index changed.
pub switch_to_best_lem : (f : RelayFailover) → SwitchedToBest f
unfolding switch_to_best push_event
switch_to_best_lem f = elim (best_from-IsBest 0 f.relays) [
  | inl (none_up, down) ↦ inl (down, rw none_up refl, rw none_up refl)
  | inr (n, k, e, b) ↦
      let found : best_from 0 f.relays ≡ some (n, k) = e ∙ found_at k (omega arith) in
      elim (Bool-cases (n == f.active_idx)) [
        | inl same ↦ inr (
          n,
          k,
          b,
          rw (found, same) refl,
          rw (found, same) (sym ((==_iff n f.active_idx).0 same)),
          rw (found, same) refl,
        )
        | inr other ↦
            inr (n, k, b, rw (found, other) refl, rw (found, other) refl, rw (found, other) refl)
      ]
]
