-- ===== src/Config/Settings.antt =====
-- The configuration of src/config.rs, as TOML has been read into it, and the checks of its sections.
pub mod Laws
use v6proxy.Prelude.{ℕ, Option, none, some, List, [], ◌∷◌, ◌++◌, Result, ok, err, ◌>>=◌}
use v6proxy.Text.{Text}
use v6proxy.State.Policy.{HashPolicy}
use v6proxy.Acl.Rule.{RuleError, parse_rule}
use v6proxy.Config.Pool
use v6proxy.Config.Pool.{V6Pool, PoolError}
use v6proxy.Config.Net.{IpNets, NetError, parse_net_list}
use v6proxy.Config.Egress
use v6proxy.Config.Egress.{EgressFilter}
use v6proxy.Api.Auth.{Tokens}

pub record AdminConfig : Type 0 where
  pub bind : Text
  pub token_hash : Text
  pub allowlist : List Text

pub record DataConfig : Type 0 where
  pub tcp_binds : List Text
  pub udp_binds : List Text

pub record PolicyConfig : Type 0 where
  pub default : HashPolicy
  pub default_seed : ℕ

pub record EgressConfig : Type 0 where
  pub allow : List Text
  pub deny : List Text

pub record DomainConfig : Type 0 where
  pub allow : List Text
  pub deny : List Text

-- Without the log section and the path of the state file. `v6_pools` is the machine section.
pub record Config : Type 0 where
  pub admin : AdminConfig
  pub data_plane : DataConfig
  pub v6_pools : List Text
  pub policy : PolicyConfig
  pub egress : EgressConfig
  pub domain : DomainConfig

-- `for x in xs { check(x)? }`
unfoldable pub check_all : {E A : Type 0} → (Text → Result E A) → List Text → Result E (Unit {0})
check_all check [] = ok tt
check_all check (s ∷ rest) = do a ← check s; check_all check rest

-- `DomainConfig::validate`
unfoldable pub validate : DomainConfig → Result RuleError (Unit {0})
validate d = check_all parse_rule (d.allow ++ d.deny)

-- `iter().map(parse).collect()`
unfoldable pub collect_pools : List Text → Result PoolError (List V6Pool)
collect_pools [] = ok []
collect_pools (s ∷ rest) = do pool ← Pool.parse s; pools ← collect_pools rest; ok (pool ∷ pools)

unfoldable pub parse_pools : Config → Result PoolError (List V6Pool)
parse_pools c = collect_pools c.v6_pools

module _ (nets : IpNets) where
  unfoldable pub parse_allowlist : AdminConfig → Result NetError (Tokens nets)
  parse_allowlist a = do
    networks ← parse_net_list nets a.allowlist
    ok (record { admin_token_hash = a.token_hash; admin_allowlist = networks })

  -- `none` is a panic.
  unfoldable pub build_filter : EgressConfig → Option (Result NetError (EgressFilter nets))
  build_filter e = Egress.build nets e.allow e.deny
