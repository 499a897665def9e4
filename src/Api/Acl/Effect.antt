-- ===== src/Api/Acl/Effect.antt =====
-- What the data plane sees of an edit that has been answered.
use v6proxy.Prelude.{
  ◌≡◌, ◌≢◌, refl, sym, subst, ap, ◌∙◌, true, false, ◌&&◌, ◌||◌, ◌<◌, Option, [], ◌∷◌, Result, ok,
  err, any, length, contains, ==_refl,
}
use v6proxy.Text.{Text, eq_text}
use v6proxy.State.Delta.{AclDelta, effective_allow, effective_deny, add_deny}
use v6proxy.State.Delta.Edit.{add-effective}
use v6proxy.State.Save.{Policies, Store, SaveError}
use v6proxy.State.Save.Laws.{Committed, apply_and_save_commits}
use v6proxy.Acl.Rule.{Rule, render, normalize, parse_rule, canonicalize_rule}
use v6proxy.Acl.Rule.Canonical.{canonicalize_rule_idem}
use v6proxy.Acl.Matcher.{spec_gt}
use v6proxy.Acl.Matcher.BestMatch.{rule_matches, specificity}
use v6proxy.Acl.Filter.{is_allowed, build_domain_filter}
use v6proxy.Acl.Filter.Build.{valid_rules}
use v6proxy.Acl.Filter.Permits.{is_allowed-eq-permits}
use v6proxy.Acl.Filter.Refuses.{valid_rules-IsAt, refused}
use v6proxy.Config.Net.{IpNets}
use v6proxy.Api.Proxy.{Proxy, rebuild_domain_filter}
use v6proxy.Api.Bindings.{Env}
use v6proxy.Api.Acl.{
  acl_not_saved, domain_kind, mutate_acl, edit_all, edit, canonicalize_batch, finish_mutate,
  post_domains_deny,
}

module _ (nets : IpNets) (serialize : Policies → Option Text) (env : Env) (s : Proxy nets) where
  -- An edit of the domain ACL that is not answered with a failed save is in the served overlay, and
  -- the compiled filter is that of the result.
  record IsApplied (f : AclDelta → AclDelta) (s' : Proxy nets) : Type 0 where
    base_kept : s'.domain_base ≡ s.domain_base
    edited : s'.store.policies.domain_acl ≡ f s.store.policies.domain_acl
    compiled :
        s'.domain_filter
        ≡ (build_domain_filter s.domain_base.0 s.domain_base.1 (f s.store.policies.domain_acl)).0

  finish_mutate-IsApplied :
      (f : AclDelta → AclDelta) (r : Result SaveError Policies) (store : Store)
      → Committed serialize env.saved_at
          (λ p. record p { domain_acl = f p.domain_acl })
          s.store
          r
          store
      → (finish_mutate nets serialize (domain_kind nets serialize) s (r, store)).0 ≢ acl_not_saved
      → IsApplied f (finish_mutate nets serialize (domain_kind nets serialize) s (r, store)).1
  unfolding rebuild_domain_filter
  finish_mutate-IsApplied f (err e) store c saved = absurd (saved refl)
  finish_mutate-IsApplied f (ok p) store (served, file, next) saved = record {
    base_kept = refl;
    edited = ap (λ q. q.domain_acl) (served ∙ next);
    compiled =
        ap (λ (q : Policies). (build_domain_filter s.domain_base.0 s.domain_base.1 q.domain_acl).0)
          (served ∙ next);
  }

  module _ (rule c : Text) (canonical : canonicalize_rule rule ≡ ok c) where
    post_domains_deny-IsApplied :
        (post_domains_deny nets serialize env (rule ∷ []) s).0 ≢ acl_not_saved
        → IsApplied
            (λ d. add_deny d s.domain_base.1 c)
            (post_domains_deny nets serialize env (rule ∷ []) s).1
    unfolding post_domains_deny mutate_acl canonicalize_batch edit_all edit
    post_domains_deny-IsApplied =
        rw (mutate_acl, canonicalize_batch, canonical)
          (finish_mutate-IsApplied (λ d. add_deny d s.domain_base.1 c) _ _
            (apply_and_save_commits serialize env.io env.saved_at
              (λ p. record p { domain_acl = add_deny p.domain_acl s.domain_base.1 c }) s.store))

  -- After a POST of one valid deny rule that runs alone and is not answered with a failed save:
  -- every host of fewer than 65535 characters that the rule matches is refused by the domain
  -- filter, unless a valid allow rule of the config or the overlay matches it and is more specific
  -- than the rule.
  pub post_domains_deny_refuses :
      (rule : Text) (r : Rule) (host : Text)
      → parse_rule rule ≡ ok r
      → length (normalize host) < 65535
      → rule_matches r (normalize host) ≡ true
      → any
          (λ a. rule_matches a (normalize host) && spec_gt (specificity a) (specificity r))
          (valid_rules (effective_allow s.store.policies.domain_acl s.domain_base.0))
        ≡ false
      → (post_domains_deny nets serialize env (rule ∷ []) s).0 ≢ acl_not_saved
      → is_allowed (post_domains_deny nets serialize env (rule ∷ []) s).1.domain_filter host ≡ false
  unfolding canonicalize_rule
  post_domains_deny_refuses rule r host parsed short matched no_exception saved =
      let d = s.store.policies.domain_acl in
      let base_allow = s.domain_base.0 in
      let base_deny = s.domain_base.1 in
      let c = render r in
      let canonical : canonicalize_rule rule ≡ ok c = rw (canonicalize_rule, parsed) refl in
      let again : parse_rule c ≡ ok r = (canonicalize_rule_idem rule c canonical).1 ∙ parsed in
      let (kept_allow, kept_deny, now_listed, unchanged) =
        add-effective d base_deny base_allow c c in
      let listed : contains c (effective_deny (add_deny d base_deny c) base_deny) ≡ true =
        now_listed ∙ ap (λ b. b || contains c (effective_deny d base_deny)) (==_refl c) in
      let free =
        subst
          (λ rules.
            any (λ a. rule_matches a (normalize host) && spec_gt (specificity a) (specificity r))
              (valid_rules rules)
            ≡ false)
          (sym unchanged) no_exception in
      ap (λ f. is_allowed f host) (post_domains_deny-IsApplied rule c canonical saved).compiled
      ∙ is_allowed-eq-permits base_allow base_deny (add_deny d base_deny c) host short
      ∙ refused r (normalize host) matched _ _ (valid_rules-IsAt _ c r again listed) free
