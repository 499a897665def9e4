-- ===== src/Acl/Filter/Build.antt =====
-- Building the domain filter never falls back to the default filter.
use v6proxy.Prelude.{◌≡◌, refl, List, [], ◌∷◌, ◌++◌, Result, ok, err, arith, Result-cases, inl, inr}
use v6proxy.Text.{Text}
use v6proxy.State.Delta.{AclDelta, effective_allow, effective_deny}
use v6proxy.Acl.Rule.{Rule, RuleError, parse_rule}
use v6proxy.Acl.Matcher.{from_rules}
use v6proxy.Acl.Filter.{parse_rules, build, filter_valid_rules, build_domain_filter}

-- The rules of the entries that parse, in order.
keep_rule : Result RuleError Rule → List Rule → List Rule
keep_rule (ok r) rs = r ∷ rs
keep_rule (err e) rs = rs

unfoldable pub valid_rules : List Text → List Rule
unfolding keep_rule
valid_rules [] = []
valid_rules (s ∷ rest) = keep_rule (parse_rule s) (valid_rules rest)

-- The entries that do not parse, with their errors, in order.
keep_error : Text → Result RuleError Rule → List (Text × RuleError) → List (Text × RuleError)
keep_error s (ok r) bad = bad
keep_error s (err e) bad = (s, e) ∷ bad

unfoldable pub invalid_rules : List Text → List (Text × RuleError)
unfolding keep_error
invalid_rules [] = []
invalid_rules (s ∷ rest) = keep_error s (parse_rule s) (invalid_rules rest)

parse_rules-filter_valid_rules :
    (rules : List Text) → parse_rules (filter_valid_rules rules).0 ≡ ok (valid_rules rules)
unfolding parse_rules filter_valid_rules valid_rules
parse_rules-filter_valid_rules [] = refl
parse_rules-filter_valid_rules (s ∷ rest) = elim (Result-cases (parse_rule s)) [
  | inl (e, failed) ↦ ground (arith, parse_rules-filter_valid_rules rest)
  | inr (r, parsed) ↦ ground (arith, parse_rules-filter_valid_rules rest)
]

filter_valid_rules-bad : (rules : List Text) → (filter_valid_rules rules).1 ≡ invalid_rules rules
unfolding filter_valid_rules invalid_rules
filter_valid_rules-bad [] = refl
filter_valid_rules-bad (s ∷ rest) = ground (arith, filter_valid_rules-bad rest)

-- The built filter holds exactly the effective rules that parse, never the default filter in their
-- place, and the refused entries are all reported, allow before deny.
pub build_domain_filter_lem :
    (base_allow base_deny : List Text) (delta : AclDelta)
    → build_domain_filter base_allow base_deny delta ≡ (
      record {
        allow = from_rules (valid_rules (effective_allow delta base_allow));
        deny = from_rules (valid_rules (effective_deny delta base_deny));
      },
      invalid_rules (effective_allow delta base_allow)
          ++ invalid_rules (effective_deny delta base_deny),
    )
unfolding build_domain_filter build
build_domain_filter_lem base_allow base_deny delta = rw (
  parse_rules-filter_valid_rules (effective_allow delta base_allow),
  parse_rules-filter_valid_rules (effective_deny delta base_deny),
  filter_valid_rules-bad (effective_allow delta base_allow),
  filter_valid_rules-bad (effective_deny delta base_deny),
)
