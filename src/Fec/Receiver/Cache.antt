-- ===== src/Fec/Receiver/Cache.antt =====
-- The cache of the receiver stays within its limit, and agrees with the order of arrival.
use ipv_8_public_base_statio.Common.{
  ℕ, suc, ◌≤◌, ◌<◌, ◌≡◌, refl, ap, sym, ◌∙◌, List, [], ◌∷◌, ◌++◌, none, some, true, false, length,
  arith, ltb, ◌==◌, le→ltb, ==_refl, length-append, Option-cases, inl, inr, Bool-cases, ok,
}
use ipv_8_public_base_statio.Fec.Sender.Group.{counter_of, data_counter-long}
use ipv_8_public_base_statio.Fec.Receiver.{Cache, FecRx, lookup, replace, evict, observe_data}

abbrev pub keys : Cache → List ℕ
keys [] = []
keys ((k, f) ∷ rest) = k ∷ keys rest

length-keys : (cache : Cache) → length (keys cache) ≡ length cache
length-keys [] = refl
length-keys ((k, f) ∷ rest) = ap suc (length-keys rest)

keys-append :
    (cache : Cache) (c : ℕ) (f : List ℕ) → keys (cache ++ ((c, f) ∷ [])) ≡ keys cache ++ (c ∷ [])
keys-append [] c f = refl
keys-append ((k, g) ∷ rest) c f = ap (◌∷◌ k) (keys-append rest c f)

keys-replace : (cache : Cache) (c : ℕ) (f : List ℕ) → keys (replace cache c f) ≡ keys cache
keys-replace [] c f = refl
keys-replace ((k, g) ∷ rest) c f = elim (Bool-cases (k == c)) [
  | inl e ↦ rw e refl
  | inr e ↦ rw e (ap (◌∷◌ k) (keys-replace rest c f))
]

lookup-append :
    (cache : Cache) (c : ℕ) (f : List ℕ)
    → lookup cache c ≡ none
    → lookup (cache ++ ((c, f) ∷ [])) c ≡ some f
lookup-append [] c f h = rw (==_refl c) refl
lookup-append ((k, g) ∷ rest) c f h = elim (Bool-cases (k == c)) [
  | inl e ↦ absurd (some-ne-none g (rw e at h))
  | inr e ↦ rw e (lookup-append rest c f (rw e at h))
]
  where
    some-ne-none : (g : List ℕ) → some g ≡ none → ⊥
    some-ne-none g e = cc

lookup-replace :
    (cache : Cache) (c : ℕ) (f g : List ℕ)
    → lookup cache c ≡ some g
    → lookup (replace cache c f) c ≡ some f
lookup-replace [] c f g h = absurd (none-ne-some h)
  where
    none-ne-some : none ≡ some g → ⊥
    none-ne-some e = cc
lookup-replace ((k, x) ∷ rest) c f g h = elim (Bool-cases (k == c)) [
  | inl e ↦ rw (e, e) refl
  | inr e ↦ rw (e, e) (lookup-replace rest c f g (rw e at h))
]

lookup-tail :
    (k c : ℕ) (f : List ℕ) (rest : Cache) → lookup ((k, f) ∷ rest) c ≡ none → lookup rest c ≡ none
lookup-tail k c f rest h = elim (Bool-cases (k == c)) [
  | inl e ↦ absurd (some-ne-none (rw e at h))
  | inr e ↦ rw e at h
]
  where
    some-ne-none : some f ≡ none → ⊥
    some-ne-none e = cc

evict-fits :
    (limit : ℕ) (cache : Cache) (order : List ℕ)
    → length cache ≤ limit
    → evict limit cache order ≡ ok (cache, order)
unfolding evict
evict-fits limit cache [] h = rw (le→ltb limit (length cache) h) refl
evict-fits limit cache (o ∷ order) h = rw (le→ltb limit (length cache) h) refl

-- The cache agrees with the order of arrival and is within the limit, which is above 0.
pub record IsRx (r : FecRx) : Type 0 where
  pub keys_eq : keys r.cache ≡ r.order
  pub within : length r.cache ≤ r.limit
  pub limit_pos : 0 < r.limit

evict_oldest :
    (limit k : ℕ) (g : List ℕ) (rest : Cache) (order : List ℕ)
    → ltb limit (length ((k, g) ∷ rest)) ≡ true
    → length rest ≤ limit
    → evict limit ((k, g) ∷ rest) (k ∷ order) ≡ ok (rest, order)
unfolding evict
evict_oldest limit k g rest order over fits =
    rw (over, ==_refl k) (evict-fits limit rest order fits)

-- A new frame at the end of a cache within its limit: at most the oldest goes.
record IsInserted (limit : ℕ) (cache : Cache) (c : ℕ) (f : List ℕ) : Type 0 where
  left : Cache
  evict_eq : evict limit (cache ++ ((c, f) ∷ [])) (keys cache ++ (c ∷ [])) ≡ ok (left, keys left)
  size : length left ≤ limit
  found : lookup left c ≡ some f

insert-IsInserted :
    (limit : ℕ) (cache : Cache) (c : ℕ) (f : List ℕ)
    → 0 < limit
    → length cache ≤ limit
    → lookup cache c ≡ none
    → IsInserted limit cache c f
insert-IsInserted limit [] c f pos h new = record {
  left = (c, f) ∷ [];
  evict_eq = evict-fits limit ((c, f) ∷ []) (c ∷ []) (omega arith);
  size = omega arith;
  found = lookup-append [] c f refl;
}
insert-IsInserted limit ((k, g) ∷ rest) c f pos h new =
    let all : Cache = ((k, g) ∷ rest) ++ ((c, f) ∷ []) in
    let n = length-append ((k, g) ∷ rest) ((c, f) ∷ []) in
    let n' = length-append rest ((c, f) ∷ []) in
    elim (Bool-cases (ltb limit (length all))) [
      | inr fits ↦ record {
        left = all;
        evict_eq =
            evict-fits limit all (keys ((k, g) ∷ rest) ++ (c ∷ [])) (ltb→ge limit (length all) fits)
            ∙ ap (λ o. ok (all, o)) (sym (keys-append ((k, g) ∷ rest) c f));
        size = ltb→ge limit (length all) fits;
        found = lookup-append ((k, g) ∷ rest) c f new;
      }
      | inl over ↦ record {
        left = rest ++ ((c, f) ∷ []);
        evict_eq =
            evict_oldest limit k g (rest ++ ((c, f) ∷ [])) (keys rest ++ (c ∷ [])) over
              (omega arith)
            ∙ ap (λ o. ok (rest ++ ((c, f) ∷ []), o)) (sym (keys-append rest c f));
        size = omega arith;
        found = lookup-append rest c f (lookup-tail k c g rest new);
      }
    ]
  where
    ltb→ge : (a b : ℕ) → ltb a b ≡ false → b ≤ a
    ltb→ge a b h = ground arith

-- What a data frame leaves: the cache is well formed and holds the frame under its counter.
pub record IsObserved (r : FecRx) (frame : List ℕ) : Type 0 where
  pub after : FecRx
  pub result : observe_data r frame ≡ ok after
  pub after-IsRx : IsRx after
  pub found : lookup after.cache (counter_of frame) ≡ some frame

-- `observe_data` takes in every frame of at least 74 bytes, its eviction loop ends, the cache keeps
-- within its limit and in step with the order of arrival, and the frame is in it.
pub observe_data-IsObserved :
    (r : FecRx) (frame : List ℕ) → IsRx r → 74 ≤ length frame → IsObserved r frame
unfolding observe_data
observe_data-IsObserved r frame h long =
    let c : ℕ = counter_of frame in
    elim (Option-cases (lookup r.cache c)) [
      | inr (g, there) ↦ record {
        after = record r { cache = replace r.cache c frame };
        result = rw (le→ltb (length frame) 74 long, data_counter-long frame long, there) refl;
        after-IsRx = record {
          keys_eq = keys-replace r.cache c frame ∙ h.keys_eq;
          within = omega (
            arith,
            length-keys (replace r.cache c frame),
            length-keys r.cache,
            ap length (keys-replace r.cache c frame),
            h.within,
          );
          limit_pos = h.limit_pos;
        };
        found = lookup-replace r.cache c frame g there;
      }
      | inl new ↦
          let i : IsInserted r.limit r.cache c frame =
            insert-IsInserted r.limit r.cache c frame h.limit_pos h.within new in
          let e : evict r.limit (r.cache ++ ((c, frame) ∷ [])) (r.order ++ (c ∷ []))
              ≡ ok (i.left, keys i.left) =
            ap (λ o. evict r.limit (r.cache ++ ((c, frame) ∷ [])) (o ++ (c ∷ []))) (sym h.keys_eq)
            ∙ i.evict_eq in
          record {
            after = record r { cache = i.left; order = keys i.left };
            result = rw (le→ltb (length frame) 74 long, data_counter-long frame long, new, e) refl;
            after-IsRx = record { keys_eq = refl; within = i.size; limit_pos = h.limit_pos };
            found = i.found;
          }
    ]
