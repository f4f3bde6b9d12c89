-- ===== src/Routing/Static/Visits.antt =====
-- The visit of the neighbours of an address.
use ipv_8_public_base_statio.Common.{
  ◌≡◌, ◌⊎◌, refl, sym, subst, Bool, true, false, List, [], ◌∷◌, ◌++◌, if◌then◌else◌, String, str_eq,
  str_eq_refl, str_eq→≡, Bool-cases, inl, inr,
}
use ipv_8_public_base_statio.Routing.Static.{Frontier, has_parent, holds, neighbors, visit}

abbrev pub IsLink : List (String × List String) → String → String → Type 0
IsLink links a b = holds (neighbors links a) b ≡ true

-- Each entry but the root was put on top of the entry of its parent, over a link.
pub data Tree (links : List (String × List String)) (local : String)
    : List (String × String) → Type 0 where
  root : Tree links local ((local, local) ∷ [])
  grow :
      {prev : List (String × String)} (c p : String)
      → has_parent prev p ≡ true
      → has_parent prev c ≡ false
      → IsLink links p c
      → Tree links local prev
      → Tree links local ((c, p) ∷ prev)

pub has_parent-more :
    (prev : List (String × String)) (c p x : String)
    → has_parent prev x ≡ true
    → has_parent ((c, p) ∷ prev) x ≡ true
has_parent-more prev c p x h = elim (Bool-cases (str_eq c x)) [
  | inl same ↦ rw same refl
  | inr other ↦ rw other h
]

pub has_parent-top :
    (prev : List (String × String)) (c p x : String)
    → has_parent ((c, p) ∷ prev) x ≡ true
    → (x ≡ c) ⊎ (has_parent prev x ≡ true)
has_parent-top prev c p x h = elim (Bool-cases (str_eq c x)) [
  | inl same ↦ inl (sym (str_eq→≡ c x same))
  | inr other ↦ inr (unless (str_eq c x) other h)
]
  where
    unless :
        (b : Bool)
        → b ≡ false
        → (if b then true else has_parent prev x) ≡ true
        → has_parent prev x ≡ true
    unless true e f = cc
    unless false e f = f

pub holds-top :
    (xs : List String) (a x : String) → holds (a ∷ xs) x ≡ true → (x ≡ a) ⊎ (holds xs x ≡ true)
holds-top xs a x h = elim (Bool-cases (str_eq a x)) [
  | inl same ↦ inl (sym (str_eq→≡ a x same))
  | inr other ↦ inr (unless (str_eq a x) other h)
]
  where
    unless : (b : Bool) → b ≡ false → (if b then true else holds xs x) ≡ true → holds xs x ≡ true
    unless true e f = cc
    unless false e f = f

pub holds-more : (xs : List String) (a x : String) → holds xs x ≡ true → holds (a ∷ xs) x ≡ true
holds-more xs a x h = elim (Bool-cases (str_eq a x)) [
  | inl same ↦ rw same refl
  | inr other ↦ rw other h
]

pub holds_self : (xs : List String) (a : String) → holds (a ∷ xs) a ≡ true
holds_self xs a = rw (str_eq_refl a) refl

pub holds-append :
    (xs : List String) (a x : String) → holds xs x ≡ true → holds (xs ++ (a ∷ [])) x ≡ true
holds-append [] a x h = cc
holds-append (y ∷ ys) a x h = elim (Bool-cases (str_eq y x)) [
  | inl same ↦ rw same refl
  | inr other ↦ rw other (holds-append ys a x (later (str_eq y x) other h))
]
  where
    later : (b : Bool) → b ≡ false → (if b then true else holds ys x) ≡ true → holds ys x ≡ true
    later true e f = cc
    later false e f = f

pub holds-last : (xs : List String) (a : String) → holds (xs ++ (a ∷ [])) a ≡ true
holds-last [] a = holds_self [] a
holds-last (y ∷ ys) a = holds-more (ys ++ (a ∷ [])) y a (holds-last ys a)

pub holds-snoc :
    (q : List String) (a x : String) → holds (q ++ (a ∷ [])) x ≡ true → (x ≡ a) ⊎ (holds q x ≡ true)
holds-snoc [] a x e = holds-top [] a x e
holds-snoc (z ∷ zs) a x e = elim (holds-top (zs ++ (a ∷ [])) z x e) [
  | inl same ↦ inr (subst (λ (t : String). holds (z ∷ zs) t ≡ true) (sym same) (holds_self zs z))
  | inr later ↦ elim (holds-snoc zs a x later) [
    | inl last ↦ inl last
    | inr before ↦ inr (holds-more zs z x before)
  ]
]

module _ (links : List (String × List String)) (local : String) where
  -- What holds while the neighbours `todo` of `cur` are still to be looked at.
  pub record Visiting (cur : String) (todo : List String) (f : Frontier) : Type 0 where
    pub tree : Tree links local f.prev
    pub cur_met : has_parent f.prev cur ≡ true
    pub queued : (x : String) → holds f.queue x ≡ true → has_parent f.prev x ≡ true
    pub to_do : (y : String) → holds todo y ≡ true → IsLink links cur y

  met-Visiting :
      (cur nb : String) (others : List String) (f : Frontier)
      → has_parent f.prev nb ≡ true
      → Visiting cur (nb ∷ others) f
      → Visiting cur others f
  met-Visiting cur nb others f met v = record {
    tree = v.tree;
    cur_met = v.cur_met;
    queued = v.queued;
    to_do = λ y h. v.to_do y (holds-more others nb y h);
  }

  new-Visiting :
      (cur nb : String) (others queue : List String) (prev : List (String × String))
      → has_parent prev nb ≡ false
      → Visiting cur (nb ∷ others) (record { queue = queue; prev = prev })
      → Visiting cur others (record { queue = queue ++ (nb ∷ []); prev = (nb, cur) ∷ prev })
  new-Visiting cur nb others queue prev unmet v = record {
    tree = grow nb cur v.cur_met unmet (v.to_do nb (holds_self others nb)) v.tree;
    cur_met = has_parent-more prev nb cur cur v.cur_met;
    queued = λ x h. elim (Bool-cases (has_parent prev x)) [
      | inl seen ↦ has_parent-more prev nb cur x seen
      | inr unseen ↦ elim (holds-snoc queue nb x h) [
        | inl is_nb ↦
            subst (λ (z : String). has_parent ((nb, cur) ∷ prev) z ≡ true) (sym is_nb)
              (rw (str_eq_refl nb) refl)
        | inr old ↦ has_parent-more prev nb cur x (v.queued x old)
      ]
    ];
    to_do = λ y h. v.to_do y (holds-more others nb y h);
  }

  pub visit-Visiting :
      (cur : String) (todo : List String) (f : Frontier)
      → Visiting cur todo f
      → Visiting cur [] (visit cur todo f)
  unfolding visit
  visit-Visiting cur [] f v = v
  visit-Visiting cur (nb ∷ others) f v = elim (Bool-cases (has_parent f.prev nb)) [
    | inl met ↦ rw met (visit-Visiting cur others f (met-Visiting cur nb others f met v))
    | inr unmet ↦ rw unmet (
        visit-Visiting cur others
          (record { queue = f.queue ++ (nb ∷ []); prev = (nb, cur) ∷ f.prev })
          (new-Visiting cur nb others f.queue f.prev unmet v))
  ]
