-- ===== src/Firewall.antt =====
-- The rules of the firewall (src/core/ipv8-firewall/src/lib.rs). Loading and saving JSON files and
-- the generation of identifiers are left out. `Protocol::parse` reads a number by the library's
-- `str::parse::<u8>`, which is the parameter `parse_u8`.
pub mod Laws
use ipv_8_public_base_statio.Common.{
  ℕ, ◌+◌, ◌-◌, Bool, true, false, not, ◌&&◌, ◌||◌, List, [], ◌∷◌, ◌++◌, map, Option, none, some,
  ltb, leb, ◌==◌, if◌then◌else◌, length, is_empty, retain, String, str_eq, starts_with, Result, ok,
  err, diverged,
}
use ipv_8_public_base_statio.Codec.Address.{
  IPv8Address, to_canonical_string, from_canonical_str, AddrParseError,
}

pub data Protocol : Type 0 where
  tcp : Protocol
  udp : Protocol
  any : Protocol
  custom : ℕ → Protocol

-- `to_ascii_lowercase`.
abbrev pub lower : ℕ → ℕ
lower c = if leb 65 c && leb c 90 then c + 32 else c

abbrev pub to_lower : String → String
to_lower s = map lower s

abbrev parsed : Option ℕ → Protocol
parsed none = any
parsed (some n) = custom n

unfoldable pub parse : (String → Option ℕ) → String → Protocol
parse parse_u8 s =
    let l = to_lower s in
    if str_eq l (116 ∷ 99 ∷ 112 ∷ [])
    then tcp
    else if str_eq l (117 ∷ 100 ∷ 112 ∷ [])
    then udp
    else if str_eq l (97 ∷ 110 ∷ 121 ∷ []) || str_eq l (42 ∷ []) || str_eq l (97 ∷ 108 ∷ 108 ∷ [])
    then any
    else parsed (parse_u8 s)

unfoldable pub matches : Protocol → ℕ → Bool
matches any actual = true
matches tcp actual = actual == 6
matches udp actual = actual == 17
matches (custom n) actual = n == actual

pub data Direction : Type 0 where
  inbound : Direction
  outbound : Direction

pub record Rule : Type 0 where
  pub id : String
  pub name : String
  pub protocol : Protocol
  pub port_start : ℕ
  pub port_end : ℕ
  pub source_pattern : String
  pub target_addr : String
  pub target_port : ℕ
  pub enabled : Bool
  pub direction : Direction
  pub comment : String

pub record MatchResult : Type 0 where
  pub rule_id : String
  pub target : Option IPv8Address
  pub target_port : ℕ

abbrev pub RuleSet : Type 0
RuleSet = List Rule

-- The first rule of the same identifier is replaced, and else the rule goes to the end.
unfoldable pub add : RuleSet → Rule → RuleSet
add [] rule = rule ∷ []
add (r ∷ rs) rule = let rest = add rs rule in if str_eq r.id rule.id then rule ∷ rs else r ∷ rest

unfoldable pub remove : RuleSet → String → RuleSet × Bool
remove rules id =
    let kept = retain (λ r. not (str_eq r.id id)) rules in (kept, not (length kept == length rules))

abbrev toggled : Rule → RuleSet → RuleSet × Bool → RuleSet × Bool
toggled r rs (rest, found) = (r ∷ rest, found)

unfoldable pub toggle : RuleSet → String → RuleSet × Bool
toggle [] id = ([], false)
toggle (r ∷ rs) id =
    let rest = toggle rs id in
    if str_eq r.id id then (record r { enabled = not r.enabled } ∷ rs, true) else toggled r rs rest

unfoldable pub active_rules : RuleSet → RuleSet
active_rules rules = retain (λ r. r.enabled) rules

-- `starts_with` in the canonical form, unless the pattern is empty or `*`.
unfoldable pub source_ok : Rule → IPv8Address → Bool
source_ok rule source =
    is_empty rule.source_pattern
    || str_eq rule.source_pattern (42 ∷ [])
    || starts_with (to_canonical_string source) (to_lower rule.source_pattern)

-- The guards of the loop's body.
unfoldable pub applies : Rule → ℕ → ℕ → IPv8Address → Bool
applies rule protocol port source =
    matches rule.protocol protocol
    && not (ltb port rule.port_start || ltb rule.port_end port)
    && source_ok rule source

-- `.ok()`.
abbrev ok_of : Result AddrParseError IPv8Address → Option IPv8Address
ok_of (ok a) = some a
ok_of (err e) = none
ok_of diverged = none

unfoldable pub result_of : Rule → ℕ → MatchResult
result_of rule port = record {
  rule_id = rule.id;
  target = if is_empty rule.target_addr then none else ok_of (from_canonical_str rule.target_addr);
  target_port = if rule.target_port == 0 then port else rule.target_port;
}

abbrev pub first_match : RuleSet → ℕ → ℕ → IPv8Address → Option MatchResult
first_match [] protocol port source = none
first_match (rule ∷ rules) protocol port source =
    let rest = first_match rules protocol port source in
    if applies rule protocol port source then some (result_of rule port) else rest

unfoldable pub match_rule : RuleSet → ℕ → ℕ → IPv8Address → Option MatchResult
match_rule rules protocol port source = first_match (active_rules rules) protocol port source

-- "total", "active" and "disabled".
unfoldable pub stats : RuleSet → ℕ × ℕ × ℕ
stats rules =
    (length rules, length (active_rules rules), length rules - length (active_rules rules))
