-- ===== src/Acl/Filter.antt =====
-- `DomainFilter` of src/acl.rs, and building it from the config base and the overlay.
pub mod Build
pub mod Permits
pub mod Refuses
use v6proxy.Prelude.{
  Bool, true, false, Option, none, some, List, [], ◌∷◌, ◌++◌, Result, ok, err, ◌>>=◌,
}
use v6proxy.Text.{Text}
use v6proxy.State.Delta.{AclDelta, effective_allow, effective_deny}
use v6proxy.Acl.{decide}
use v6proxy.Acl.Rule.{Rule, RuleError, normalize, parse_rule}
use v6proxy.Acl.Matcher.{
  DomainMatcher, empty_matcher, from_rules, matcher_is_empty, best_match, spec_gt,
}

pub record DomainFilter : Type 0 where
  pub allow : DomainMatcher
  pub deny : DomainMatcher

abbrev pub default_filter : DomainFilter
default_filter = record { allow = empty_matcher; deny = empty_matcher }

-- `rules.iter().map(parse_rule).collect::<Result<Vec<_>>>()`: the first error ends it.
unfoldable pub parse_rules : List Text → Result RuleError (List Rule)
parse_rules [] = ok []
parse_rules (s ∷ rest) = do r ← parse_rule s; rs ← parse_rules rest; ok (r ∷ rs)

unfoldable pub build : List Text → List Text → Result RuleError DomainFilter
build allow deny = do
  allow_rules ← parse_rules allow
  deny_rules ← parse_rules deny
  ok (record { allow = from_rules allow_rules; deny = from_rules deny_rules })

unfoldable pub is_allowed : DomainFilter → Text → Bool
is_allowed f host =
    let host' = normalize host in
    decide spec_gt (best_match f.allow host') (best_match f.deny host') (matcher_is_empty f.allow)

-- One round of `filter_valid_rules`: a rule goes to the accepted, or with its error to the refused.
abbrev sort_rule :
    Text
    → Result RuleError Rule
    → List Text × List (Text × RuleError)
    → List Text × List (Text × RuleError)
sort_rule s (ok r) (good, bad) = (s ∷ good, bad)
sort_rule s (err e) (good, bad) = (good, (s, e) ∷ bad)

unfoldable pub filter_valid_rules : List Text → List Text × List (Text × RuleError)
filter_valid_rules [] = ([], [])
filter_valid_rules (s ∷ rest) = sort_rule s (parse_rule s) (filter_valid_rules rest)

-- `unwrap_or_default`
abbrev filter_or_default : Result RuleError DomainFilter → DomainFilter
filter_or_default (ok f) = f
filter_or_default (err e) = default_filter

unfoldable pub build_domain_filter :
    List Text → List Text → AclDelta → DomainFilter × List (Text × RuleError)
build_domain_filter base_allow base_deny delta =
    let (allow, bad) = filter_valid_rules (effective_allow delta base_allow) in
    let (deny, bad_deny) = filter_valid_rules (effective_deny delta base_deny) in
    (filter_or_default (build allow deny), bad ++ bad_deny)
