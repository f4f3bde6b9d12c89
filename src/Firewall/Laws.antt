-- ===== src/Firewall/Laws.antt =====
-- What the rule set lets through, and how it is edited.
use ipv_8_public_base_statio.Common.{
  ℕ, ◌≡◌, ◌⊎◌, inl, inr, refl, ap, ◌∙◌, Bool, true, false, not, [], ◌∷◌, ◌++◌, Option, none, some,
  if◌then◌else◌, retain, All, Bool-cases, String, str_eq, str_eq_refl,
}
use ipv_8_public_base_statio.Codec.Address.{IPv8Address}
use ipv_8_public_base_statio.Firewall.{
  Rule, RuleSet, MatchResult, Direction, add, remove, active_rules, applies, result_of, first_match,
  match_rule, source_ok,
}

-- A rule that lets the connection through, the first that does so.
pub record IsFirst (rules : RuleSet) (protocol port : ℕ) (source : IPv8Address)
    (result : MatchResult) : Type 0 where
  pub before : RuleSet
  pub rule : Rule
  pub after : RuleSet
  pub rules_eq : rules ≡ before ++ (rule ∷ after)
  pub is_enabled : rule.enabled ≡ true
  pub applies_here : applies rule protocol port source ≡ true
  pub result_eq : result ≡ result_of rule port
  pub none_before : All (λ r. (r.enabled ≡ false) ⊎ (applies r protocol port source ≡ false)) before

module _ (r : Rule) (rs : RuleSet) (protocol port : ℕ) (source : IPv8Address) where
  match_rule-enabled :
      (b : Bool)
      → r.enabled ≡ true
      → applies r protocol port source ≡ b
      → match_rule (r ∷ rs) protocol port source
        ≡ (if b then some (result_of r port) else match_rule rs protocol port source)
  unfolding match_rule active_rules
  match_rule-enabled b on e =
      ap
        (λ c. first_match (if c then r ∷ active_rules rs else active_rules rs) protocol port source)
        on
      ∙ ap (λ c. if c then some (result_of r port) else match_rule rs protocol port source) e

  match_rule-disabled :
      r.enabled ≡ false
      → match_rule (r ∷ rs) protocol port source ≡ match_rule rs protocol port source
  unfolding match_rule active_rules
  match_rule-disabled off =
      ap
        (λ c. first_match (if c then r ∷ active_rules rs else active_rules rs) protocol port source)
        off

abbrev pub Matched : RuleSet → ℕ → ℕ → IPv8Address → Type 0
Matched rules protocol port source =
    ((match_rule rules protocol port source ≡ none)
      × All (λ r. (r.enabled ≡ false) ⊎ (applies r protocol port source ≡ false)) rules)
    ⊎ ((result : MatchResult) × (match_rule rules protocol port source ≡ some result)
        × IsFirst rules protocol port source result)

-- Soundness and completeness of the match: either no enabled rule applies and there is no result,
-- or the result is that of the first enabled rule that applies.
pub match_rule_lem :
    (rules : RuleSet) (protocol port : ℕ) (source : IPv8Address)
    → Matched rules protocol port source
unfolding match_rule active_rules
match_rule_lem [] protocol port source = inl (refl, tt)
match_rule_lem (r ∷ rs) protocol port source = elim (Bool-cases r.enabled) [
  | inl on ↦ elim (Bool-cases (applies r protocol port source)) [
    | inl fits ↦ inr (
      result_of r port,
      match_rule-enabled r rs protocol port source true on fits,
      record {
        before = [];
        rule = r;
        after = rs;
        rules_eq = refl;
        is_enabled = on;
        applies_here = fits;
        result_eq = refl;
        none_before = tt;
      },
    )
    | inr misses ↦ elim (match_rule_lem rs protocol port source) [
      | inl (e, all) ↦
          inl (match_rule-enabled r rs protocol port source false on misses ∙ e, (inr misses, all))
      | inr (result, e, f) ↦ inr (
        result,
        match_rule-enabled r rs protocol port source false on misses ∙ e,
        later r rs (inr misses) f,
      )
    ]
  ]
  | inr off ↦ elim (match_rule_lem rs protocol port source) [
    | inl (e, all) ↦ inl (match_rule-disabled r rs protocol port source off ∙ e, (inl off, all))
    | inr (result, e, f) ↦
        inr (result, match_rule-disabled r rs protocol port source off ∙ e, later r rs (inl off) f)
  ]
]
  where
    later :
        {result : MatchResult} (r : Rule) (rs : RuleSet)
        → (r.enabled ≡ false) ⊎ (applies r protocol port source ≡ false)
        → IsFirst rs protocol port source result
        → IsFirst (r ∷ rs) protocol port source result
    later r rs why f = record {
      before = r ∷ f.before;
      rule = f.rule;
      after = f.after;
      rules_eq = ap (◌∷◌ r) f.rules_eq;
      is_enabled = f.is_enabled;
      applies_here = f.applies_here;
      result_eq = f.result_eq;
      none_before = (why, f.none_before);
    }

-- The rules with every direction replaced.
abbrev pub redirect : Direction → RuleSet → RuleSet
redirect d [] = []
redirect d (r ∷ rs) = record r { direction = d } ∷ redirect d rs

-- The direction of a rule plays no part in the match: with every rule inbound, or every rule
-- outbound, the same connections pass with the same result.
pub match_rule-redirect :
    (d : Direction) (rules : RuleSet) (protocol port : ℕ) (source : IPv8Address)
    → match_rule (redirect d rules) protocol port source ≡ match_rule rules protocol port source
unfolding match_rule active_rules applies result_of source_ok
match_rule-redirect d [] protocol port source = refl
match_rule-redirect d (r ∷ rs) protocol port source = elim (Bool-cases r.enabled) [
  | inl on ↦ rw on (
      ap (λ rest. if applies r protocol port source then some (result_of r port) else rest)
        (match_rule-redirect d rs protocol port source))
  | inr off ↦ rw off (match_rule-redirect d rs protocol port source)
]

-- The first rule with an identifier.
abbrev pub find : RuleSet → String → Option Rule
find [] id = none
find (r ∷ rs) id = let rest = find rs id in if str_eq r.id id then some r else rest

-- An added rule is the one that its identifier finds.
find-add : (rules : RuleSet) (rule : Rule) → find (add rules rule) rule.id ≡ some rule
unfolding add
find-add [] rule = rw (str_eq_refl rule.id) refl
find-add (r ∷ rs) rule = elim (Bool-cases (str_eq r.id rule.id)) [
  | inl same ↦ rw (same, str_eq_refl rule.id) refl
  | inr other ↦ rw (other, other) (find-add rs rule)
]

-- A removed identifier finds nothing.
find-retain :
    (rules : RuleSet) (id : String) → find (retain (λ r. not (str_eq r.id id)) rules) id ≡ none
find-retain [] id = refl
find-retain (r ∷ rs) id = elim (Bool-cases (str_eq r.id id)) [
  | inl same ↦ rw same (find-retain rs id)
  | inr other ↦ rw (other, other) (find-retain rs id)
]

-- Adding replaces or appends, so that the identifier then finds the added rule, and removing it
-- afterwards leaves no rule of that identifier.
pub remove-add :
    (rules : RuleSet) (rule : Rule)
    → (find (add rules rule) rule.id ≡ some rule)
      × (find (remove (add rules rule) rule.id).0 rule.id ≡ none)
unfolding remove
remove-add rules rule = (find-add rules rule, find-retain (add rules rule) rule.id)
