-- ===== src/Acl/Matcher.antt =====
-- `DomainMatcher` of src/acl.rs: the compiled rules and their best match.
pub mod Zones
pub mod BestMatch
use v6proxy.Prelude.{
  ltb, eq_ℕ, ℕ, zero, suc, ◌+◌, ◌%◌, ◌^◌, Bool, true, false, ◌&&◌, ◌||◌, ◌++◌, Option, none, some,
  List, [], ◌∷◌, if◌then◌else◌, ◌==◌, any, is_empty, contains, length,
}
use v6proxy.Text.{Text, eq_text, has_substring, count_char, split_once}
use v6proxy.Acl.Rule.{Rule, full, domain, keyword, dot}

-- The two hash sets are lists without repetition; nothing in the source iterates over them.
pub record DomainMatcher : Type 0 where
  pub full : List Text
  pub domain : List Text
  pub keyword : List Text

abbrev pub empty_matcher : DomainMatcher
empty_matcher = record { full = []; domain = []; keyword = [] }

-- `HashSet::insert`
unfoldable pub insert : Text → List Text → List Text
insert s set = if contains s set then set else s ∷ set

unfoldable pub add_rule : DomainMatcher → Rule → DomainMatcher
add_rule m (full s) = record m { full = insert s m.full }
add_rule m (domain s) = record m { domain = insert s m.domain }
add_rule m (keyword s) = record m { keyword = m.keyword ++ s ∷ [] }

-- The loop of `from_rules`.
unfoldable pub add_rules : DomainMatcher → List Rule → DomainMatcher
add_rules m [] = m
add_rules m (r ∷ rules) = add_rules (add_rule m r) rules

unfoldable pub from_rules : List Rule → DomainMatcher
from_rules rules = add_rules empty_matcher rules

unfoldable pub matcher_is_empty : DomainMatcher → Bool
matcher_is_empty m = is_empty m.full && is_empty m.domain && is_empty m.keyword

-- (tier, detail)
abbrev pub Specificity : Type 0
Specificity = ℕ × ℕ

-- The order of pairs, `a > d`.
unfoldable pub spec_gt : Specificity → Specificity → Bool
spec_gt a d = ltb d.0 a.0 || (d.0 == a.0 && ltb d.1 a.1)

-- `s.split('.').count()`
abbrev pub labels : Text → ℕ
labels s = suc (count_char dot s)

-- The suffix loop of `best_match`, longest first; `as u16` keeps the low 16 bits of the count.
unfoldable pub zone_walk : List Text → ℕ → Text → Option Specificity
zone_walk zones zero s = none
zone_walk zones (suc fuel) s =
    let shorter = elim (split_once dot s) as (λ o. Option Specificity) [
      | none ↦ none
      | some parts ↦ zone_walk zones fuel parts.1
    ] in
    if contains s zones then some (2, labels s % 2 ^ 16) else shorter

-- Every round drops at least the dot, so the length of the host bounds the rounds.
unfoldable pub best_match : DomainMatcher → Text → Option Specificity
best_match m host =
    if contains host m.full
    then some (3, 0)
    else elim (zone_walk m.domain (suc (length host)) host) [
      | some found ↦ some found
      | none ↦ if any (λ k. has_substring k host) m.keyword then some (1, 0) else none
    ]
