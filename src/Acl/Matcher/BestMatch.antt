-- ===== src/Acl/Matcher/BestMatch.antt =====
-- `best_match` over compiled rules against the definition by the rules themselves.
use v6proxy.Prelude.{
  ℕ, suc, ◌+◌, ◌%◌, ◌^◌, ◌≤◌, ◌<◌, ◌≡◌, refl, ap, ◌∙◌, Bool, true, ◌||◌, Option, none, some, List,
  [], ◌∷◌, arith, if◌then◌else◌, ◌==◌, eq_ℕ, contains, length, Option-cases, inl, inr, any,
  any-append,
}
use v6proxy.Text.{Text, eq_text, text_eq_iff, has_substring}
use v6proxy.Acl.Rule.{Rule, full, domain, keyword}
use v6proxy.Acl.Matcher.{
  spec_gt, Specificity, labels, insert, DomainMatcher, empty_matcher, add_rule, add_rules,
  from_rules, best_match,
}
use v6proxy.Acl.Matcher.Zones.{
  covers, longest_zone, max_labels, zone_walk-eq-longest_zone, longest_zone-insert,
  longest_zone-labels-le,
}

-- When a rule matches a host, and how specific it is: the documentation of `Rule`.
unfoldable pub rule_matches : Rule → Text → Bool
rule_matches (full s) host = s == host
rule_matches (domain z) host = covers z host
rule_matches (keyword k) host = has_substring k host

unfoldable pub specificity : Rule → Specificity
specificity (full s) = (3, 0)
specificity (domain z) = (2, labels z)
specificity (keyword k) = (1, 0)

unfoldable pub better : Option Specificity → Specificity → Option Specificity
better none s = some s
better (some b) s = if spec_gt s b then some s else some b

unfoldable pub improve : Text → Option Specificity → Rule → Option Specificity
improve host best r = if rule_matches r host then better best (specificity r) else best

-- The most specific of the rules that match.
unfoldable pub most_specific_from : Text → Option Specificity → List Rule → Option Specificity
most_specific_from host best [] = best
most_specific_from host best (r ∷ rules) = most_specific_from host (improve host best r) rules

unfoldable pub most_specific : List Rule → Text → Option Specificity
unfolding most_specific_from
most_specific rules host = most_specific_from host none rules

-- the tiers below `full`
lower_tiers : Option ℕ → Bool → Option Specificity
lower_tiers none hit = if hit then some (1, 0) else none
lower_tiers (some n) hit = some (2, n)

-- `best_match` in terms of the three tiers
tiers : Bool → Option ℕ → Bool → Option Specificity
tiers exact top hit = if exact then some (3, 0) else lower_tiers top hit

any_keyword : DomainMatcher → Text → Bool
any_keyword m host = any (λ k. has_substring k host) m.keyword

best_match-eq-tiers :
    (m : DomainMatcher) (host : Text)
    → length host < 65535
    → best_match m host
      ≡ tiers (contains host m.full) (longest_zone m.domain host) (any_keyword m host)
unfolding best_match tiers lower_tiers any_keyword
best_match-eq-tiers m host short = elim (Option-cases (longest_zone m.domain host)) [
  | inl e ↦
      rw (zone_walk-eq-longest_zone m.domain (suc (length host)) host (omega arith), e)
        (ground arith)
  | inr (n, e) ↦
      let small : n ≤ length host + 1 = longest_zone-labels-le m.domain host n e in
      let same : n % 2 ^ 16 ≡ n = omega arith in
      rw (zone_walk-eq-longest_zone m.domain (suc (length host)) host (omega arith), e, same)
        (ground arith)
]

contains-insert :
    (x s : Text) (set : List Text) → contains x (insert s set) ≡ s == x || contains x set
unfolding insert
contains-insert x s set = ground (arith, text_eq_iff s x)

tiers-full :
    (exact : Bool) (top : Option ℕ) (hit : Bool)
    → tiers true top hit ≡ better (tiers exact top hit) (3, 0)
unfolding tiers lower_tiers better spec_gt
tiers-full exact top hit = ground arith

tiers-domain :
    (exact : Bool) (n : ℕ) (top : Option ℕ) (hit : Bool)
    → tiers exact (max_labels n top) hit ≡ better (tiers exact top hit) (2, n)
unfolding tiers lower_tiers better spec_gt max_labels
tiers-domain exact n none hit = ground arith
tiers-domain exact n (some m) hit = ground arith

tiers-keyword :
    (exact : Bool) (top : Option ℕ) (hit : Bool)
    → tiers exact top true ≡ better (tiers exact top hit) (1, 0)
unfolding tiers lower_tiers better spec_gt
tiers-keyword exact none hit = ground arith
tiers-keyword exact (some m) hit = ground arith

module _ (host : Text) (short : length host < 65535) where
  best_match-add_rule :
      (m : DomainMatcher) (r : Rule)
      → best_match (add_rule m r) host ≡ improve host (best_match m host) r
  unfolding add_rule any_keyword improve rule_matches specificity
  best_match-add_rule m (full s) = ground (
    arith,
    best_match-eq-tiers m host short,
    best_match-eq-tiers (add_rule m (full s)) host short,
    contains-insert host s m.full,
    tiers-full (contains host m.full) (longest_zone m.domain host) (any_keyword m host),
  )
  best_match-add_rule m (domain z) = ground (
    arith,
    best_match-eq-tiers m host short,
    best_match-eq-tiers (add_rule m (domain z)) host short,
    longest_zone-insert z m.domain host,
    tiers-domain (contains host m.full) (labels z) (longest_zone m.domain host)
        (any_keyword m host),
  )
  best_match-add_rule m (keyword k) = ground (
    arith,
    best_match-eq-tiers m host short,
    best_match-eq-tiers (add_rule m (keyword k)) host short,
    any-append (λ (t : Text). has_substring t host) m.keyword (k ∷ []),
    tiers-keyword (contains host m.full) (longest_zone m.domain host) (any_keyword m host),
  )

  best_match-add_rules :
      (m : DomainMatcher) (rules : List Rule)
      → best_match (add_rules m rules) host ≡ most_specific_from host (best_match m host) rules
  unfolding add_rules most_specific_from
  best_match-add_rules m [] = refl
  best_match-add_rules m (r ∷ rules) =
      best_match-add_rules (add_rule m r) rules
      ∙ ap (λ b. most_specific_from host b rules) (best_match-add_rule m r)

  best_match-empty : best_match empty_matcher host ≡ none
  unfolding tiers lower_tiers any_keyword longest_zone
  best_match-empty = best_match-eq-tiers empty_matcher host short

-- On a host of fewer than 65535 characters the compiled matcher finds the specificity of the most
-- specific of the rules that match: an exact rule, then the zone with the most labels, then a
-- keyword.
pub best_match-eq-most_specific :
    (rules : List Rule) (host : Text)
    → length host < 65535
    → best_match (from_rules rules) host ≡ most_specific rules host
unfolding from_rules most_specific
best_match-eq-most_specific rules host short =
    best_match-add_rules host short empty_matcher rules
    ∙ ap (λ b. most_specific_from host b rules) (best_match-empty host short)
