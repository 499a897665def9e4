-- ===== src/Acl/Filter/Permits.antt =====
-- The domain filter's decision against its documentation: the most specific matching rule decides.
use v6proxy.Prelude.{
  ◌<◌, ◌≡◌, refl, ◌∙◌, Bool, true, false, not, ◌&&◌, ◌||◌, Option, none, some, List, [], ◌∷◌, ◌++◌,
  arith, any, is_empty, length, eq_ℕ,
}
use v6proxy.Text.{Text, eq_text}
use v6proxy.State.Delta.{AclDelta, effective_allow, effective_deny}
use v6proxy.Acl.{decide}
use v6proxy.Acl.Rule.{Rule, full, domain, keyword, normalize}
use v6proxy.Acl.Matcher.{
  Specificity, spec_gt, add_rule, add_rules, insert, DomainMatcher, empty_matcher, from_rules,
  matcher_is_empty,
}
use v6proxy.Acl.Matcher.BestMatch.{
  rule_matches, specificity, better, improve, most_specific_from, most_specific,
  best_match-eq-most_specific,
}
use v6proxy.Acl.Filter.{is_allowed, build_domain_filter}
use v6proxy.Acl.Filter.Build.{valid_rules, build_domain_filter_lem}

-- No deny rule that matches the host is as specific as `s`.
unfoldable pub beats_all : Specificity → List Rule → Text → Bool
beats_all s [] host = true
beats_all s (d ∷ deny) host =
    (not (rule_matches d host) || spec_gt s (specificity d)) && beats_all s deny host

-- Some allow rule matches and is more specific than every deny rule that matches; or there is no
-- allow rule at all and no deny rule matches.
unfoldable pub permits : List Rule → List Rule → Text → Bool
permits allow deny host =
    any (λ a. rule_matches a host && beats_all (specificity a) deny host) allow
    || (is_empty allow && not (any (λ d. rule_matches d host) deny))

abbrev beats : Specificity → Option Specificity → Bool
beats s none = true
beats s (some d) = spec_gt s d

abbrev wins : Option Specificity → Option Specificity → Bool
wins none d = false
wins (some a) d = beats a d

abbrev is_none : Option Specificity → Bool
is_none none = true
is_none (some s) = false

beats-better :
    (s d : Specificity) (best : Option Specificity)
    → beats s (better best d) ≡ beats s best && spec_gt s d
unfolding better spec_gt
beats-better s d best = ground arith

wins-better :
    (a : Specificity) (best d : Option Specificity)
    → wins (better best a) d ≡ wins best d || beats a d
unfolding better spec_gt
wins-better a none none = refl
wins-better a none (some d) = refl
wins-better a (some b) none = ground arith
wins-better a (some b) (some d) = ground arith

is_none-better : (best : Option Specificity) (s : Specificity) → is_none (better best s) ≡ false
unfolding better
is_none-better best s = ground arith

module _ (host : Text) where
  beats-most_specific_from :
      (s : Specificity) (best : Option Specificity) (deny : List Rule)
      → beats s (most_specific_from host best deny) ≡ beats s best && beats_all s deny host
  unfolding most_specific_from improve beats_all
  beats-most_specific_from s best [] = ground arith
  beats-most_specific_from s best (d ∷ deny) = ground (
    arith,
    beats-most_specific_from s best deny,
    beats-most_specific_from s (better best (specificity d)) deny,
    beats-better s (specificity d) best,
  )

  is_none-most_specific_from :
      (best : Option Specificity) (rules : List Rule)
      → is_none (most_specific_from host best rules)
        ≡ is_none best && not (any (λ r. rule_matches r host) rules)
  unfolding most_specific_from improve
  is_none-most_specific_from best [] = ground arith
  is_none-most_specific_from best (r ∷ rules) = ground (
    arith,
    is_none-most_specific_from best rules,
    is_none-most_specific_from (better best (specificity r)) rules,
    is_none-better best (specificity r),
  )

  module _ (deny : List Rule) where
    abbrev prevails : Rule → Bool
    prevails a = rule_matches a host && beats_all (specificity a) deny host

    wins-most_specific_from :
        (best : Option Specificity) (allow : List Rule)
        → wins (most_specific_from host best allow) (most_specific_from host none deny)
          ≡ wins best (most_specific_from host none deny) || any prevails allow
    unfolding most_specific_from improve
    wins-most_specific_from best [] = ground arith
    wins-most_specific_from best (a ∷ allow) = ground (
      arith,
      wins-most_specific_from best allow,
      wins-most_specific_from (better best (specificity a)) allow,
      wins-better (specificity a) best (most_specific_from host none deny),
      beats-most_specific_from (specificity a) none deny,
    )

decide-eq-wins :
    (a d : Option Specificity) (none_at_all : Bool)
    → (none_at_all ≡ true → is_none a ≡ true)
    → decide spec_gt a d none_at_all ≡ wins a d || (none_at_all && is_none d)
unfolding decide
decide-eq-wins none none e h = ground arith
decide-eq-wins none (some d) e h = ground arith
decide-eq-wins (some a) none e h = ground arith
decide-eq-wins (some a) (some d) e h = ground (arith, h)

is_empty-insert : (s : Text) (set : List Text) → is_empty (insert s set) ≡ false
unfolding insert
is_empty-insert s [] = refl
is_empty-insert s (x ∷ set) = ground arith

is_empty-push : (xs : List Text) (x : Text) → is_empty (xs ++ x ∷ []) ≡ false
is_empty-push [] x = refl
is_empty-push (y ∷ xs) x = refl

matcher_is_empty-add_rule : (m : DomainMatcher) (r : Rule) → matcher_is_empty (add_rule m r) ≡ false
unfolding matcher_is_empty add_rule
matcher_is_empty-add_rule m (full s) = ground (arith, is_empty-insert s m.full)
matcher_is_empty-add_rule m (domain s) = ground (arith, is_empty-insert s m.domain)
matcher_is_empty-add_rule m (keyword s) = ground (arith, is_empty-push m.keyword s)

matcher_is_empty-add_rules :
    (m : DomainMatcher) (rules : List Rule)
    → matcher_is_empty (add_rules m rules) ≡ matcher_is_empty m && is_empty rules
unfolding add_rules
matcher_is_empty-add_rules m [] = ground arith
matcher_is_empty-add_rules m (r ∷ rules) =
    ground (arith, matcher_is_empty-add_rules (add_rule m r) rules, matcher_is_empty-add_rule m r)

matcher_is_empty-from_rules :
    (rules : List Rule) → matcher_is_empty (from_rules rules) ≡ is_empty rules
unfolding from_rules matcher_is_empty
matcher_is_empty-from_rules rules = matcher_is_empty-add_rules empty_matcher rules

no_rule_no_match :
    (rules : List Rule) (host : Text)
    → is_empty rules ≡ true
    → is_none (most_specific rules host) ≡ true
unfolding most_specific
no_rule_no_match [] host h = refl
no_rule_no_match (r ∷ rules) host h = ground arith

decide-eq-permits :
    (allow deny : List Rule) (host : Text)
    → decide spec_gt (most_specific allow host) (most_specific deny host) (is_empty allow)
      ≡ permits allow deny host
unfolding permits most_specific
decide-eq-permits allow deny host =
    decide-eq-wins (most_specific allow host) (most_specific deny host) (is_empty allow)
      (no_rule_no_match allow host)
    ∙ ground (
      arith,
      wins-most_specific_from host deny none allow,
      is_none-most_specific_from host none deny,
    )

-- On a host of fewer than 65535 characters, the domain filter built from the config base and the
-- overlay permits exactly what the effective rules permit: an allow rule matches that is more
-- specific than every matching deny rule, or there is no valid allow rule and no deny rule matches.
pub is_allowed-eq-permits :
    (base_allow base_deny : List Text) (delta : AclDelta) (host : Text)
    → length (normalize host) < 65535
    → is_allowed (build_domain_filter base_allow base_deny delta).0 host
      ≡ permits
          (valid_rules (effective_allow delta base_allow))
          (valid_rules (effective_deny delta base_deny))
          (normalize host)
unfolding is_allowed
is_allowed-eq-permits base_allow base_deny delta host short =
    let allow = valid_rules (effective_allow delta base_allow) in
    let deny = valid_rules (effective_deny delta base_deny) in
    rw
      (
        build_domain_filter_lem base_allow base_deny delta,
        best_match-eq-most_specific allow (normalize host) short,
        best_match-eq-most_specific deny (normalize host) short,
        matcher_is_empty-from_rules allow,
      )
      (decide-eq-permits allow deny (normalize host))
