-- ===== src/Api/Proxy.antt =====
-- The state that the admin API and the data plane share: the policies and their file, the config
-- defaults and lists, and the compiled filters. The filters' rebuilding, of src/acl.rs, is here.
use v6proxy.Prelude.{ℕ, Option, none, some, List, [], ◌∷◌, Result, ok, err}
use v6proxy.Text.{Text}
use v6proxy.Acl.Rule.{canonicalize_rule}
use v6proxy.Acl.Filter.{DomainFilter, build_domain_filter}
use v6proxy.Config.Net.{IpNets, canonicalize_net}
use v6proxy.Config.Egress.{EgressFilter, build_egress_filter}
use v6proxy.State.Policy.{HashPolicy}
use v6proxy.State.Save.{Store}

-- The lists of one config section, allow before deny.
abbrev pub Base : Type 0
Base = List Text × List Text

pub record Proxy (nets : IpNets) : Type 0 where
  pub store : Store
  pub default_hash_policy : HashPolicy
  pub default_binding_seed : ℕ
  pub domain_base : Base
  pub egress_base : Base
  pub domain_filter : DomainFilter
  pub egress_filter : EgressFilter nets

-- `filter_map(|r| canonicalize(r).ok())`
unfoldable pub canonical_entries : {E : Type 0} → (Text → Result E Text) → List Text → List Text
canonical_entries canonicalize [] = []
canonical_entries canonicalize (r ∷ rest) = elim (canonicalize r) [
  | ok c ↦ c ∷ canonical_entries canonicalize rest
  | err e ↦ canonical_entries canonicalize rest
]

module _ (nets : IpNets) where
  unfoldable pub rebuild_domain_filter : Proxy nets → Proxy nets
  rebuild_domain_filter s = record s {
    domain_filter =
        (build_domain_filter s.domain_base.0 s.domain_base.1 s.store.policies.domain_acl).0;
  }

  -- `none` is the panic of a built-in range that does not parse.
  abbrev swap_egress : Proxy nets → Option (EgressFilter nets × List Text) → Option (Proxy nets)
  swap_egress s none = none
  swap_egress s (some (f, bad)) = some (record s { egress_filter = f })

  unfoldable pub rebuild_egress_filter : Proxy nets → Option (Proxy nets)
  rebuild_egress_filter s =
      swap_egress s
        (build_egress_filter nets s.egress_base.0 s.egress_base.1 s.store.policies.egress_acl)

  unfoldable pub init_domain_filter : Base → Proxy nets → Proxy nets
  unfolding canonical_entries
  init_domain_filter (allow, deny) s = rebuild_domain_filter (record s {
    domain_base =
        (canonical_entries canonicalize_rule allow, canonical_entries canonicalize_rule deny);
  })

  unfoldable pub init_egress_filter : Base → Proxy nets → Option (Proxy nets)
  unfolding canonical_entries
  init_egress_filter (allow, deny) s = rebuild_egress_filter (record s {
    egress_base = (
      canonical_entries (canonicalize_net nets) allow,
      canonical_entries (canonicalize_net nets) deny,
    );
  })
