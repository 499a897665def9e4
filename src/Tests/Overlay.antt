-- ===== src/Tests/Overlay.antt =====
-- The overlay of src/state.rs at concrete lists.
use v6proxy.Prelude.{◌≡◌, refl, not, ◌&&◌, ◌||◌, List, [], ◌∷◌, ◌==◌, contains}
use v6proxy.Text.{Text, codes, eq_text}
use v6proxy.State.Delta.{
  AclDelta, empty_delta, merge_acl, effective_allow, effective_deny, add_allow, del_allow, add_deny,
  del_deny,
}
use v6proxy.State.Delta.Merge.{contains-merge_acl}
use v6proxy.State.Delta.Edit.{IsTidy, add-effective, del-effective, edits-IsTidy}

abbrev rule_a : Text
rule_a = codes "domain:a.com"

abbrev rule_b : Text
rule_b = codes "domain:b.com"

abbrev base : List Text
base = rule_a ∷ []

abbrev with_b : AclDelta
with_b = record empty_delta { allow_add = rule_b ∷ [] }

empty_delta-IsTidy : IsTidy base [] empty_delta
empty_delta-IsTidy = record {
  on_allow = record { add_new = λ x. refl; del_base = λ x. refl; add_once = tt; del_once = tt };
  on_deny = record { add_new = λ x. refl; del_base = λ x. refl; add_once = tt; del_once = tt };
}

contains-merge_acl_example :
    contains rule_a (merge_acl base (rule_b ∷ []) (rule_a ∷ []))
    ≡ (contains rule_a base || contains rule_a (rule_b ∷ [])) && not (contains rule_a (rule_a ∷ []))
contains-merge_acl_example = contains-merge_acl rule_a base (rule_b ∷ []) (rule_a ∷ [])

add-effective_example :
    (contains rule_b (effective_allow (add_allow empty_delta base rule_b) base)
      ≡ rule_b == rule_b || contains rule_b (effective_allow empty_delta base))
    × (effective_deny (add_allow empty_delta base rule_b) [] ≡ effective_deny empty_delta [])
    × (contains rule_b (effective_deny (add_deny empty_delta base rule_b) base)
        ≡ rule_b == rule_b || contains rule_b (effective_deny empty_delta base))
    × (effective_allow (add_deny empty_delta base rule_b) [] ≡ effective_allow empty_delta [])
add-effective_example = add-effective empty_delta base [] rule_b rule_b

del-effective_example :
    (contains rule_b (effective_allow (del_allow with_b base rule_a) base)
      ≡ not (rule_b == rule_a) && contains rule_b (effective_allow with_b base))
    × (effective_deny (del_allow with_b base rule_a) [] ≡ effective_deny with_b [])
    × (contains rule_b (effective_deny (del_deny with_b base rule_a) base)
        ≡ not (rule_b == rule_a) && contains rule_b (effective_deny with_b base))
    × (effective_allow (del_deny with_b base rule_a) [] ≡ effective_allow with_b [])
del-effective_example = del-effective with_b base [] rule_a rule_b

edits-IsTidy_example :
    IsTidy base [] (add_allow empty_delta base rule_b)
    × IsTidy base [] (del_allow empty_delta base rule_b)
    × IsTidy base [] (add_deny empty_delta [] rule_b)
    × IsTidy base [] (del_deny empty_delta [] rule_b)
edits-IsTidy_example = edits-IsTidy base [] empty_delta rule_b empty_delta-IsTidy
