-- ===== src/Acl/Filter/Refuses.antt =====
-- What one deny rule keeps out.
use v6proxy.Prelude.{
  ◌≡◌, refl, true, false, ◌&&◌, List, [], ◌∷◌, arith, any, IsAt, here, there, contains, ok,
  Result-cases, Bool-cases, inl, inr, ◌==◌,
}
use v6proxy.Text.{Text, eq_text, text_eq_iff}
use v6proxy.Acl.Rule.{Rule, parse_rule}
use v6proxy.Acl.Matcher.{spec_gt, Specificity}
use v6proxy.Acl.Matcher.BestMatch.{rule_matches, specificity}
use v6proxy.Acl.Filter.Build.{valid_rules}
use v6proxy.Acl.Filter.Permits.{beats_all, permits}

-- A rule that is written in a list is one of its valid rules.
pub valid_rules-IsAt :
    (rules : List Text) (text : Text) (r : Rule)
    → parse_rule text ≡ ok r
    → contains text rules ≡ true
    → IsAt r (valid_rules rules)
unfolding valid_rules
valid_rules-IsAt [] text r parsed h = absurd (ground (arith, h))
valid_rules-IsAt (x ∷ rules) text r parsed h = elim (Bool-cases (x == text)) [
  | inl same ↦ let e : x ≡ text = (text_eq_iff x text).0 same in rw (valid_rules, e, parsed) here
  | inr other ↦
      let at = valid_rules-IsAt rules text r parsed (ground (arith, h, other)) in
      elim (Result-cases (parse_rule x)) [
        | inl (err_x, f) ↦ rw (valid_rules, f) at
        | inr (q, f) ↦ rw (valid_rules, f) (there at)
      ]
]

module _ (r : Rule) (host : Text) (matched : rule_matches r host ≡ true) where
  beaten :
      (s : Specificity) (deny : List Rule)
      → IsAt r deny
      → spec_gt s (specificity r) ≡ false
      → beats_all s deny host ≡ false
  unfolding beats_all
  beaten s [] at h = elim at [ ]
  beaten s (d ∷ deny) here h = ground (arith, h, matched)
  beaten s (d ∷ deny) (there at) h = ground (arith, beaten s deny at h)

  some_match : (deny : List Rule) → IsAt r deny → any (λ d. rule_matches d host) deny ≡ true
  some_match [] at = elim at [ ]
  some_match (d ∷ deny) here = ground (arith, matched)
  some_match (d ∷ deny) (there at) = ground (arith, some_match deny at)

  none_wins :
      (deny : List Rule)
      → IsAt r deny
      → (allow : List Rule)
      → any (λ a. rule_matches a host && spec_gt (specificity a) (specificity r)) allow ≡ false
      → any (λ a. rule_matches a host && beats_all (specificity a) deny host) allow ≡ false
  none_wins deny at [] h = refl
  none_wins deny at (a ∷ allow) h = elim (Bool-cases (spec_gt (specificity a) (specificity r))) [
    | inl gt ↦ ground (arith, h, gt, none_wins deny at allow)
    | inr le ↦ ground (arith, h, le, beaten (specificity a) deny at le, none_wins deny at allow)
  ]

  -- A matching deny rule keeps the host out unless a matching allow rule is more specific.
  pub refused :
      (allow deny : List Rule)
      → IsAt r deny
      → any (λ a. rule_matches a host && spec_gt (specificity a) (specificity r)) allow ≡ false
      → permits allow deny host ≡ false
  unfolding permits
  refused allow deny at h = ground (arith, none_wins deny at allow h, some_match deny at)
