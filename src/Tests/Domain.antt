-- ===== src/Tests/Domain.antt =====
-- The domain filter of src/acl.rs at concrete rules.
use v6proxy.Prelude.{◌≡◌, ◌<◌, refl, List, [], ◌∷◌, ok, arith, length}
use v6proxy.Text.{Text, codes}
use v6proxy.State.Delta.{AclDelta, empty_delta, effective_allow, effective_deny}
use v6proxy.Acl.Rule.{
  Rule, full, domain, keyword, normalize, parse_rule, render, canonicalize_rule, dot,
}
use v6proxy.Acl.Rule.Canonical.{canonicalize_rule_idem}
use v6proxy.Acl.Matcher.{from_rules, best_match}
use v6proxy.Acl.Matcher.BestMatch.{most_specific, best_match-eq-most_specific}
use v6proxy.Acl.Filter.{is_allowed, build_domain_filter}
use v6proxy.Acl.Filter.Build.{valid_rules}
use v6proxy.Acl.Filter.Permits.{permits, is_allowed-eq-permits}

abbrev zone_rule : Text
zone_rule = codes " Bad.COM."

abbrev host : Text
host = codes "ok.bad.com"

abbrev rules : List Rule
rules = domain (codes "bad.com") ∷ full (codes "ok.bad.com") ∷ keyword (codes "bad") ∷ []

abbrev exceptions : AclDelta
exceptions = record empty_delta { allow_add = codes "full:ok.bad.com" ∷ [] }

parse_zone_rule : parse_rule zone_rule ≡ ok (domain (codes "bad.com"))
unfolding parse_rule v6proxy.Text.strip_prefix v6proxy.Text.trim v6proxy.Acl.Rule.parse_zone
    normalize v6proxy.Text.to_ascii_lowercase v6proxy.Acl.Rule.has_bad_character
parse_zone_rule = refl

canonicalize_zone_rule : canonicalize_rule zone_rule ≡ ok (codes "domain:bad.com")
unfolding canonicalize_rule parse_rule render v6proxy.Text.strip_prefix v6proxy.Text.trim
    v6proxy.Acl.Rule.parse_zone normalize v6proxy.Text.to_ascii_lowercase
    v6proxy.Acl.Rule.has_bad_character
canonicalize_zone_rule = refl

host_short : length (normalize host) < 65535
unfolding normalize v6proxy.Text.to_ascii_lowercase v6proxy.Text.trim_end_matches v6proxy.Text.trim
host_short = omega arith

is_allowed-eq-permits_example :
    is_allowed (build_domain_filter [] (zone_rule ∷ []) exceptions).0 host
    ≡ permits
        (valid_rules (effective_allow exceptions []))
        (valid_rules (effective_deny exceptions (zone_rule ∷ [])))
        (normalize host)
is_allowed-eq-permits_example = is_allowed-eq-permits [] (zone_rule ∷ []) exceptions host host_short

best_match-eq-most_specific_example : best_match (from_rules rules) host ≡ most_specific rules host
best_match-eq-most_specific_example = best_match-eq-most_specific rules host (omega arith)

canonicalize_rule_idem_example :
    (canonicalize_rule (codes "domain:bad.com") ≡ ok (codes "domain:bad.com"))
    × (parse_rule (codes "domain:bad.com") ≡ parse_rule zone_rule)
canonicalize_rule_idem_example =
    canonicalize_rule_idem zone_rule (codes "domain:bad.com") canonicalize_zone_rule
