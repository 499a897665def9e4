-- ===== src/Startup.antt =====
-- src/main.rs: the checks of the configuration, and the state that the proxy starts with. Reading
-- the TOML file is before, binding the listeners after.
pub mod Valid
pub mod Laws
pub mod Running
use v6proxy.Prelude.{
  ℕ, Bool, true, false, not, Option, none, some, List, [], Result, ok, err, ◌>>=◌, ◌>>◌, map_err,
  is_empty,
}
use v6proxy.Text.{Text}
use v6proxy.Addr.Socket.{SocketAddr, parse_socket_addr}
use v6proxy.State.Save.{Policies, Disk, load_policies}
use v6proxy.Acl.Rule.{RuleError}
use v6proxy.Acl.Filter.{default_filter}
use v6proxy.Config.Pool.{V6Pool, PoolError}
use v6proxy.Config.Net.{IpNets, NetError}
use v6proxy.Config.Egress.{EgressFilter}
use v6proxy.Config.Settings.{
  Config, validate, check_all, parse_pools, parse_allowlist, build_filter,
}
use v6proxy.Api.Proxy.{Proxy, init_domain_filter, init_egress_filter}
use v6proxy.Api.Auth.{Tokens}

-- Why the program does not start; `start_panicked` is a panic.
pub data StartError : Type 0 where
  failed_to_parse_pools : PoolError → StartError
  no_pools : StartError
  failed_to_parse_egress : NetError → StartError
  failed_to_parse_domain : RuleError → StartError
  failed_to_parse_allowlist : NetError → StartError
  invalid_admin_bind invalid_tcp_bind invalid_udp_bind : StartError
  failed_to_create_directory failed_to_load_policies start_panicked : StartError

-- `anyhow::ensure!`
unfoldable pub ensure : Bool → StartError → Result StartError (Unit {0})
ensure true e = ok tt
ensure false e = err e

unfoldable pub or_start_error : {A : Type 0} → StartError → Option A → Result StartError A
or_start_error e none = err e
or_start_error e (some a) = ok a

-- A result that may also be a panic.
unfoldable pub or_panic :
    {E A : Type 0} → (E → StartError) → Option (Result E A) → Result StartError A
or_panic context none = err start_panicked
or_panic context (some r) = map_err context r

module _ (nets : IpNets) where
  pub record LoadedConfig : Type 0 where
    pub config : Config
    pub pools : List V6Pool
    pub tokens : Tokens nets
    pub admin_bind : SocketAddr

  unfoldable pub validate_config : Config → Result StartError LoadedConfig
  unfolding or_panic or_start_error ensure
  validate_config c = do
    pools ← map_err failed_to_parse_pools (parse_pools c)
    ensure (not (is_empty pools)) no_pools
    filter ← or_panic failed_to_parse_egress (build_filter nets c.egress)
    map_err failed_to_parse_domain (validate c.domain)
    tokens ← map_err failed_to_parse_allowlist (parse_allowlist nets c.admin)
    admin_bind ← or_start_error invalid_admin_bind (parse_socket_addr c.admin.bind)
    check_all (λ bind_addr. or_start_error invalid_tcp_bind (parse_socket_addr bind_addr))
        c.data_plane.tcp_binds
    check_all (λ bind_addr. or_start_error invalid_udp_bind (parse_socket_addr bind_addr))
        c.data_plane.udp_binds
    ok (record { config = c; pools = pools; tokens = tokens; admin_bind = admin_bind })

  -- The shared state before the filters are set up: both empty, and no lists.
  abbrev pub bare : Config → Policies → Disk → Proxy nets
  bare c p d = record {
    store = record { policies = p; disk = d };
    default_hash_policy = c.policy.default;
    default_binding_seed = c.policy.default_seed;
    domain_base = ([], []);
    egress_base = ([], []);
    domain_filter = default_filter;
    egress_filter = record { allow = []; deny = [] };
  }

  -- The start up to the listeners: the checked configuration and the shared state. The arguments
  -- are how the state file reads, whether its directory can be made, and the time.
  unfoldable pub start :
      (Text → Option Policies)
      → Bool
      → ℕ
      → Disk
      → Config
      → Result StartError (LoadedConfig × Proxy nets)
  unfolding or_start_error ensure
  start deserialize directory_ok now disk config = do
    loaded ← validate_config config
    ensure directory_ok failed_to_create_directory
    policies ← or_start_error failed_to_load_policies (load_policies deserialize now disk)
    s ← or_start_error start_panicked (
        init_egress_filter nets (loaded.config.egress.allow, loaded.config.egress.deny)
          (init_domain_filter nets (loaded.config.domain.allow, loaded.config.domain.deny)
            (bare loaded.config policies disk)))
    ok (loaded, s)
