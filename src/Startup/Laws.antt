-- ===== src/Startup/Laws.antt =====
-- What the started proxy satisfies.
use v6proxy.Prelude.{
  ℕ, ◌≡◌, refl, sym, subst, ap, ◌∙◌, Bool, Option, some, List, [], ◌∷◌, map, ok, arith,
  Option-cases, Result-cases, inl, inr,
}
use v6proxy.Text.{Text}
use v6proxy.State.Save.{Policies, Disk, load_policies}
use v6proxy.Acl.Rule.{parse_rule, canonicalize_rule}
use v6proxy.Acl.Rule.Canonical.{parse_rule-render}
use v6proxy.Acl.Filter.Build.{valid_rules}
use v6proxy.Acl.Filter.{build_domain_filter}
use v6proxy.Config.Net.{IpNets, parse_net, canonicalize_net}
use v6proxy.Config.Egress.{build_egress_filter}
use v6proxy.Config.Egress.Build.{valid_nets}
use v6proxy.Config.Settings.{Config}
use v6proxy.Config.Settings.Laws.{bind-ok}
use v6proxy.Api.Proxy.{
  Proxy, Base, canonical_entries, rebuild_egress_filter, rebuild_domain_filter, init_domain_filter,
  init_egress_filter,
}
use v6proxy.Api.Acl.Fresh.{IsFresh}
use v6proxy.Startup.{
  start_panicked, failed_to_create_directory, failed_to_load_policies, ensure, or_start_error,
  LoadedConfig, validate_config, bare, start,
}
use v6proxy.Startup.Valid.{or_start_error-ok, IsValid, validate_config-IsValid}

-- Canonical form loses no rule that parses, and changes none.
valid_rules-canonical_entries :
    (rules : List Text)
    → valid_rules (canonical_entries canonicalize_rule rules) ≡ valid_rules rules
unfolding valid_rules canonical_entries canonicalize_rule
valid_rules-canonical_entries [] = refl
valid_rules-canonical_entries (r ∷ rest) = elim (Result-cases (parse_rule r)) [
  | inl (e, failed) ↦ ground (arith, failed, valid_rules-canonical_entries rest)
  | inr (x, parsed) ↦
      ground (arith, parsed, parse_rule-render r x parsed, valid_rules-canonical_entries rest)
]

module _ (nets : IpNets) where
  -- The ranges of the entries that parse, each truncated and written out.
  pub truncated : List Text → List Text
  truncated entries = map (λ n. nets.show (nets.trunc n)) (valid_nets nets entries)

  canonical_entries-eq-truncated :
      (entries : List Text) → canonical_entries (canonicalize_net nets) entries ≡ truncated entries
  unfolding canonical_entries canonicalize_net truncated valid_nets
  canonical_entries-eq-truncated [] = refl
  canonical_entries-eq-truncated (e ∷ entries) = elim (Result-cases (parse_net nets e)) [
    | inl (x, failed) ↦ ground (arith, failed, canonical_entries-eq-truncated entries)
    | inr (n, parsed) ↦ ground (arith, parsed, canonical_entries-eq-truncated entries)
  ]

  -- What rebuilding the egress filter establishes and leaves alone.
  record IsRebuilt (s s' : Proxy nets) : Type 0 where
    fresh : IsFresh nets s'
    store : s'.store ≡ s.store
    default_policy : s'.default_hash_policy ≡ s.default_hash_policy
    default_seed : s'.default_binding_seed ≡ s.default_binding_seed
    domain_base : s'.domain_base ≡ s.domain_base
    egress_base : s'.egress_base ≡ s.egress_base

  rebuild_egress_filter-IsRebuilt :
      (s s' : Proxy nets)
      → rebuild_egress_filter nets s ≡ some s'
      → s.domain_filter
        ≡ (build_domain_filter s.domain_base.0 s.domain_base.1 s.store.policies.domain_acl).0
      → IsRebuilt s s'
  unfolding rebuild_egress_filter
  rebuild_egress_filter-IsRebuilt s s' h fresh =
      elim (Option-cases
        (build_egress_filter nets s.egress_base.0 s.egress_base.1 s.store.policies.egress_acl)) [
          | inl e ↦ absurd (ground (arith, h, e))
          | inr ((f, bad), e) ↦
              let made : record s { egress_filter = f } ≡ s' = ground (arith, h, e) in
              subst (IsRebuilt s) made (record {
                fresh = record { domain_fresh = fresh; refused = bad; egress_fresh = e };
                store = refl;
                default_policy = refl;
                default_seed = refl;
                domain_base = refl;
                egress_base = refl;
              })
        ]

  -- What the program starts with.
  pub record IsStarted (deserialize : Text → Option Policies) (now : ℕ) (disk : Disk) (c : Config)
      (loaded : LoadedConfig nets) (s : Proxy nets) : Type 0 where
    pub valid : IsValid nets c loaded
    pub loads : load_policies deserialize now disk ≡ some s.store.policies
    pub disk_kept : s.store.disk ≡ disk
    pub fresh : IsFresh nets s
    pub allow_rules : valid_rules s.domain_base.0 ≡ valid_rules c.domain.allow
    pub deny_rules : valid_rules s.domain_base.1 ≡ valid_rules c.domain.deny
    pub allow_ranges : s.egress_base.0 ≡ truncated c.egress.allow
    pub deny_ranges : s.egress_base.1 ≡ truncated c.egress.deny
    pub default_policy : s.default_hash_policy ≡ c.policy.default
    pub default_seed : s.default_binding_seed ≡ c.policy.default_seed

  init_egress_filter-IsRebuilt :
      (base : Base) (s s' : Proxy nets)
      → init_egress_filter nets base s ≡ some s'
      → s.domain_filter
        ≡ (build_domain_filter s.domain_base.0 s.domain_base.1 s.store.policies.domain_acl).0
      → IsRebuilt (record s { egress_base = (truncated base.0, truncated base.1) }) s'
  unfolding init_egress_filter
  init_egress_filter-IsRebuilt (allow, deny) s s' h fresh =
      rebuild_egress_filter-IsRebuilt (record s { egress_base = (truncated allow, truncated deny) })
        s' (rw (← canonical_entries-eq-truncated allow, ← canonical_entries-eq-truncated deny) h)
        fresh

  module _ (deserialize : Text → Option Policies) (now : ℕ) (disk : Disk) (c : Config) where
    -- When the program starts, its configuration is valid, it serves the policies of the state file
    -- (or the default ones, without a file), both compiled filters are those of the base lists and
    -- the served overlays, the allow and the deny base of the domain filter hold the rules of the
    -- configured allow and deny list, those of the egress filter hold their ranges, truncated, and
    -- the default policy and seed are the configured ones.
    pub start-IsStarted :
        (directory_ok : Bool) (loaded : LoadedConfig nets) (s : Proxy nets)
        → start nets deserialize directory_ok now disk c ≡ ok (loaded, s)
        → IsStarted deserialize now disk c loaded s
    unfolding start init_domain_filter rebuild_domain_filter
    start-IsStarted directory_ok loaded s h =
        let (loaded', e1, h1) = bind-ok (validate_config nets c) _ (loaded, s) h in
        let (u, e2, h2) =
          bind-ok (ensure directory_ok failed_to_create_directory) _ (loaded, s) h1 in
        let (p, e3, h3) =
          bind-ok (or_start_error failed_to_load_policies (load_policies deserialize now disk)) _
            (loaded, s) h2 in
        let (s', e4, h4) = bind-ok (or_start_error start_panicked _) _ (loaded, s) h3 in
        let same_loaded : loaded' ≡ loaded = ground (arith, h4) in
        let same_state : s' ≡ s = ground (arith, h4) in
        let valid = validate_config-IsValid nets c loaded' e1 in
        let rebuilt =
          init_egress_filter-IsRebuilt _
            (init_domain_filter nets (loaded'.config.domain.allow, loaded'.config.domain.deny)
              (bare nets loaded'.config p disk))
            s' (or_start_error-ok start_panicked _ s' e4) refl in
        subst (λ t. IsStarted deserialize now disk c loaded t) same_state
          (subst (λ l. IsStarted deserialize now disk c l s') same_loaded
            (record {
              valid = valid;
              loads =
                  or_start_error-ok failed_to_load_policies (load_policies deserialize now disk) p
                    e3
                  ∙ ap (λ st. some st.policies) (sym rebuilt.store);
              disk_kept = ap (λ st. st.disk) rebuilt.store;
              fresh = rebuilt.fresh;
              allow_rules =
                  ap (λ b. valid_rules b.0) rebuilt.domain_base
                  ∙ valid_rules-canonical_entries loaded'.config.domain.allow
                  ∙ ap (λ x. valid_rules x.domain.allow) valid.same;
              deny_rules =
                  ap (λ b. valid_rules b.1) rebuilt.domain_base
                  ∙ valid_rules-canonical_entries loaded'.config.domain.deny
                  ∙ ap (λ x. valid_rules x.domain.deny) valid.same;
              allow_ranges =
                  ap (λ b. b.0) rebuilt.egress_base ∙ ap (λ x. truncated x.egress.allow) valid.same;
              deny_ranges =
                  ap (λ b. b.1) rebuilt.egress_base ∙ ap (λ x. truncated x.egress.deny) valid.same;
              default_policy = rebuilt.default_policy ∙ ap (λ x. x.policy.default) valid.same;
              default_seed = rebuilt.default_seed ∙ ap (λ x. x.policy.default_seed) valid.same;
            }))
