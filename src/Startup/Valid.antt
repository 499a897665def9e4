-- ===== src/Startup/Valid.antt =====
-- What the checks of a configuration establish.
use v6proxy.Prelude.{
  ◌≡◌, ◌≢◌, refl, subst, ap, Bool, true, false, not, Option, none, some, List, [], ◌++◌, Result, ok,
  map_err, is_empty, All, arith, Result-cases, inl, inr,
}
use v6proxy.Text.{Text}
use v6proxy.Addr.Socket.{parse_socket_addr}
use v6proxy.Acl.Rule.{parse_rule}
use v6proxy.Config.Pool.Bounds.{IsPool}
use v6proxy.Config.Net.{IpNets, parse_net, parse_net_list}
use v6proxy.Config.Egress
use v6proxy.Config.Egress.{EgressFilter, builtin_blocked_nets, build_egress_filter, extend_deny}
use v6proxy.Config.Settings.{
  Config, AdminConfig, validate, check_all, parse_pools, parse_allowlist, build_filter,
}
use v6proxy.Config.Settings.Laws.{
  bind-ok, map_err-ok, Passes, check_all-Passes, collect_pools-IsPool, parse_net_list-Passes,
}
use v6proxy.Api.Auth.{Tokens}
use v6proxy.Startup.{
  StartError, invalid_tcp_bind, invalid_udp_bind, invalid_admin_bind, failed_to_parse_pools,
  no_pools, failed_to_parse_egress, failed_to_parse_domain, failed_to_parse_allowlist, ensure,
  or_start_error, or_panic, LoadedConfig, validate_config,
}

ensure-ok : (b : Bool) (e : StartError) (u : Unit {0}) → ensure b e ≡ ok u → b ≡ true
unfolding ensure
ensure-ok true e u h = refl
ensure-ok false e u h = absurd (ground (arith, h))

pub or_start_error-ok :
    {A : Type 0} (e : StartError) (o : Option A) (a : A) → or_start_error e o ≡ ok a → o ≡ some a
unfolding or_start_error
or_start_error-ok e none a h = absurd (ground (arith, h))
or_start_error-ok e (some x) a h = ground (arith, h)

or_panic-ok :
    {E A : Type 0} (f : E → StartError) (o : Option (Result E A)) (a : A)
    → or_panic f o ≡ ok a
    → o ≡ some (ok a)
unfolding or_panic
or_panic-ok f none a h = absurd (ground (arith, h))
or_panic-ok f (some r) a h = ap (λ x. some x) (map_err-ok f r a h)

module _ (nets : IpNets) where
  extend_deny-ok :
      (allow deny : List nets.Net) (o : Option (List nets.Net)) (f : EgressFilter nets)
      → extend_deny nets allow deny o ≡ some (ok f)
      → (builtins : List nets.Net) × (o ≡ some builtins)
  unfolding extend_deny
  extend_deny-ok allow deny none f h = absurd (ground (arith, h))
  extend_deny-ok allow deny (some b) f h = (b, refl)

  -- An egress filter is built only from entries that are all networks, and when the built-in ranges parse.
  build-Passes :
      (allow deny : List Text) (f : EgressFilter nets)
      → Egress.build nets allow deny ≡ some (ok f)
      → Passes (parse_net nets) allow
        × Passes (parse_net nets) deny
        × ((builtins : List nets.Net) × (builtin_blocked_nets nets ≡ some builtins))
  unfolding Egress.build
  build-Passes allow deny f h = elim (Result-cases (parse_net_list nets allow)) [
    | inl (e, failed) ↦ absurd (ground (arith, h, failed))
    | inr (nets_a, parsed) ↦ elim (Result-cases (parse_net_list nets deny)) [
      | inl (e, failed) ↦ absurd (ground (arith, h, parsed, failed))
      | inr (ds, parsed_deny) ↦ (
        parse_net_list-Passes nets allow nets_a parsed,
        parse_net_list-Passes nets deny ds parsed_deny,
        extend_deny-ok nets_a ds (builtin_blocked_nets nets) f
            (ground (arith, h, parsed, parsed_deny)),
      )
    ]
  ]

  -- Every entry of a checked configuration is what it should be.
  pub record IsValid (c : Config) (loaded : LoadedConfig nets) : Type 0 where
    pub same : loaded.config ≡ c
    pub some_pool : loaded.pools ≢ []
    pub pools : All IsPool loaded.pools
    pub egress_allow : Passes (parse_net nets) c.egress.allow
    pub egress_deny : Passes (parse_net nets) c.egress.deny
    pub builtins : List nets.Net
    pub builtins_parse : builtin_blocked_nets nets ≡ some builtins
    pub domain_rules : Passes parse_rule (c.domain.allow ++ c.domain.deny)
    pub allowlist : parse_net_list nets c.admin.allowlist ≡ ok loaded.tokens.admin_allowlist
    pub token_hash : loaded.tokens.admin_token_hash ≡ c.admin.token_hash
    pub admin_bind : parse_socket_addr c.admin.bind ≡ some loaded.admin_bind
    pub tcp_binds :
        Passes (λ b. or_start_error invalid_tcp_bind (parse_socket_addr b)) c.data_plane.tcp_binds
    pub udp_binds :
        Passes (λ b. or_start_error invalid_udp_bind (parse_socket_addr b)) c.data_plane.udp_binds

  parse_allowlist-ok :
      (a : AdminConfig) (t : Tokens nets)
      → parse_allowlist nets a ≡ ok t
      → (parse_net_list nets a.allowlist ≡ ok t.admin_allowlist)
        × (t.admin_token_hash ≡ a.token_hash)
  unfolding parse_allowlist
  parse_allowlist-ok a t h = elim (Result-cases (parse_net_list nets a.allowlist)) [
    | inl (e, failed) ↦ absurd (ground (arith, h, failed))
    | inr (ns, parsed) ↦ ground (arith, h, parsed)
  ]

  -- The program goes on only with a configuration whose pools, networks, domain rules and bind
  -- addresses are all well formed, and with at least one address pool.
  pub validate_config-IsValid :
      (c : Config) (loaded : LoadedConfig nets)
      → validate_config nets c ≡ ok loaded
      → IsValid c loaded
  unfolding validate_config validate parse_pools build_filter
  validate_config-IsValid c loaded h =
      let (pools, e1, h1) = bind-ok (map_err failed_to_parse_pools (parse_pools c)) _ loaded h in
      let (u2, e2, h2) = bind-ok (ensure (not (is_empty pools)) no_pools) _ loaded h1 in
      let (filter, e3, h3) =
        bind-ok (or_panic failed_to_parse_egress (build_filter nets c.egress)) _ loaded h2 in
      let (u4, e4, h4) = bind-ok (map_err failed_to_parse_domain (validate c.domain)) _ loaded h3 in
      let (tokens, e5, h5) =
        bind-ok (map_err failed_to_parse_allowlist (parse_allowlist nets c.admin)) _ loaded h4 in
      let (admin_bind, e6, h6) =
        bind-ok (or_start_error invalid_admin_bind (parse_socket_addr c.admin.bind)) _ loaded h5 in
      let (u7, e7, h7) =
        bind-ok
          (check_all (λ b. or_start_error invalid_tcp_bind (parse_socket_addr b))
            c.data_plane.tcp_binds)
          _ loaded h6 in
      let (u8, e8, h8) =
        bind-ok
          (check_all (λ b. or_start_error invalid_udp_bind (parse_socket_addr b))
            c.data_plane.udp_binds)
          _ loaded h7 in
      let made : LoadedConfig nets = record {
        config = c;
        pools = pools;
        tokens = tokens;
        admin_bind = admin_bind;
      } in
      let whole : made ≡ loaded = ground (arith, h8) in
      let nonempty = ensure-ok (not (is_empty pools)) no_pools u2 e2 in
      let (egress_allow, egress_deny, (builtins, builtins_parse)) =
        build-Passes c.egress.allow c.egress.deny filter
          (or_panic-ok failed_to_parse_egress (build_filter nets c.egress) filter e3) in
      let (allowlist, token_hash) =
        parse_allowlist-ok c.admin tokens
          (map_err-ok failed_to_parse_allowlist (parse_allowlist nets c.admin) tokens e5) in
      subst (λ l. IsValid c l) whole
        (record {
          same = refl;
          some_pool = λ e. ground (arith, nonempty, e);
          pools =
              collect_pools-IsPool c.v6_pools pools
                (map_err-ok failed_to_parse_pools (parse_pools c) pools e1);
          egress_allow = egress_allow;
          egress_deny = egress_deny;
          builtins = builtins;
          builtins_parse = builtins_parse;
          domain_rules =
              check_all-Passes parse_rule (c.domain.allow ++ c.domain.deny)
                (map_err-ok failed_to_parse_domain (validate c.domain) u4 e4);
          allowlist = allowlist;
          token_hash = token_hash;
          admin_bind =
              or_start_error-ok invalid_admin_bind (parse_socket_addr c.admin.bind) admin_bind e6;
          tcp_binds =
              check_all-Passes (λ b. or_start_error invalid_tcp_bind (parse_socket_addr b))
                c.data_plane.tcp_binds e7;
          udp_binds =
              check_all-Passes (λ b. or_start_error invalid_udp_bind (parse_socket_addr b))
                c.data_plane.udp_binds e8;
        })
