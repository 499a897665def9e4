-- ===== src/Tests/World.antt =====
-- A whole proxy at concrete inputs: its start, its admin API, and an HTTP connection.
use v6proxy.Prelude.{
  ℕ, ◌+◌, ◌%◌, ◌^◌, ◌<◌, ◌≡◌, ◌≢◌, refl, true, false, Option, none, some, List, [], ◌∷◌, ◌++◌, ok,
  err, All, IsAt, here, there, arith, any, ltb, ◌&&◌, length, inl, inr, ◌==◌, if◌then◌else◌,
}
use v6proxy.Text.{Text, codes, eq_text}
use v6proxy.Addr.{IpAddr, v4, v6}
use v6proxy.Addr.Socket.{SocketAddr}
use v6proxy.State.Policy.{src_ip}
use v6proxy.State.Delta.{empty_delta, effective_allow}
use v6proxy.State.Save.{Policies, default_policies, SaveIo, written, Disk}
use v6proxy.Acl.Filter.{build_domain_filter}
use v6proxy.Config.Pool.{V6Pool}
use v6proxy.Config.Settings.{Config}
use v6proxy.Api.Auth.{Argon2, Verdict, matches, differs, Request}
use v6proxy.Api.Bindings.{Env}
use v6proxy.Api.Proxy.{Proxy}
use v6proxy.Api.Router.{
  Endpoint, acl_endpoint, bindings_endpoint, post_domains_deny_route, list_route, router, serve,
}
use v6proxy.Dataplane.Hash.{SipHasher}
use v6proxy.Dataplane.Bytes.{Bytes, found}
use v6proxy.Dataplane.Host.Authority.{with_port}
use v6proxy.Dataplane.Host.Laws.{small, HostLine, request}
use v6proxy.Dataplane.Forward.{Counters, RouteWorld}
use v6proxy.Dataplane.Tcp.{ConnectIo, TcpWorld, opened, handle_tcp}
use v6proxy.Startup.{LoadedConfig, start, validate_config}
use v6proxy.Startup.Running.{running}
use v6proxy.Tests.Nets.{v6_nets, builtins}

abbrev pub serialize : Policies → Option Text
serialize p = some (p.version ∷ p.updated_at ∷ [])

abbrev pub deserialize : Text → Option Policies
deserialize t = none

-- A hash is a text, and the token that it is of.
abbrev pub plain : Argon2
plain = record {
  Hash = Text;
  parse_hash = λ t. some t;
  verify_password = λ token hash. if token == hash then matches else differs;
}

abbrev pub config : Config
config = record {
  admin = record {
    bind = codes "127.0.0.1:9000";
    token_hash = codes "secret";
    allowlist = codes "2001:db8::7" ∷ [];
  };
  data_plane = record { tcp_binds = codes "0.0.0.0:80" ∷ []; udp_binds = codes "[::]:443" ∷ [] };
  v6_pools = codes "2001:db8:a::/64" ∷ [];
  policy = record { default = src_ip; default_seed = 0 };
  egress = record { allow = codes "2001:db8:1::/48" ∷ []; deny = [] };
  domain = record { allow = []; deny = codes "bad.com" ∷ [] };
}

abbrev pub empty_disk : Disk
empty_disk = record { file = none; tmp = none }

abbrev pub pool : V6Pool
pool = record { prefix = 0x20010db8000a00000000000000000000; prefix_len = 64 }

abbrev pub loaded : LoadedConfig v6_nets
loaded = record {
  config = config;
  pools = pool ∷ [];
  tokens = record {
    admin_token_hash = codes "secret";
    admin_allowlist = record { prefix = 0x20010db8000000000000000000000007; prefix_len = 128 } ∷ [];
  };
  admin_bind = record { ip = v4 0x7f000001; port = 9000; flowinfo = 0; scope_id = 0 };
}

pub config_loads : validate_config v6_nets config ≡ ok loaded
unfolding validate_config v6proxy.Config.Settings.parse_pools v6proxy.Config.Settings.collect_pools
    v6proxy.Config.Pool.parse v6proxy.Text.split v6proxy.Addr.parse_ipv6
    v6proxy.Text.Numbers.to_digit v6proxy.Text.Numbers.from_str_radix
    v6proxy.Config.Settings.build_filter v6proxy.Config.Egress.build
    v6proxy.Config.Net.parse_net_list v6proxy.Config.Net.parse_net v6proxy.Text.has_char
    v6proxy.Config.Egress.builtin_blocked_nets v6proxy.Config.Settings.validate
    v6proxy.Config.Settings.check_all v6proxy.Acl.Rule.parse_rule v6proxy.Acl.Rule.has_bad_character
    v6proxy.Acl.Rule.normalize v6proxy.Acl.Rule.parse_keyword v6proxy.Acl.Rule.parse_trimmed
    v6proxy.Acl.Rule.parse_zone v6proxy.Addr.Socket.parse_socket_addr v6proxy.Addr.parse_ip
    v6proxy.Config.Egress.extend_deny v6proxy.Config.Pool.prefix_mask
    v6proxy.Config.Settings.parse_allowlist v6proxy.Startup.ensure v6proxy.Startup.or_panic
    v6proxy.Startup.or_start_error v6proxy.Text.Numbers.digits_from v6proxy.Text.is_whitespace
    v6proxy.Text.strip_prefix v6proxy.Text.to_ascii_lowercase v6proxy.Text.to_lower
    v6proxy.Text.trim v6proxy.Text.trim_end_matches v6proxy.Text.trim_start_matches
config_loads = refl

abbrev pub started : Proxy v6_nets
started = record {
  store = record { policies = default_policies 1; disk = empty_disk };
  default_hash_policy = src_ip;
  default_binding_seed = 0;
  domain_base = ([], codes "domain:bad.com" ∷ []);
  egress_base = ((47 ∷ 0x20010db8000100000000000000000000 ∷ 48 ∷ []) ∷ [], []);
  domain_filter = (build_domain_filter [] (codes "domain:bad.com" ∷ []) empty_delta).0;
  egress_filter = record {
    allow = record { prefix = 0x20010db8000100000000000000000000; prefix_len = 48 } ∷ [];
    deny = builtins;
  };
}

pub config_starts : start v6_nets deserialize true 1 empty_disk config ≡ ok (loaded, started)
unfolding start validate_config v6proxy.Config.Settings.parse_pools
    v6proxy.Config.Settings.collect_pools v6proxy.Config.Pool.parse v6proxy.Text.split
    v6proxy.Addr.parse_ipv6 v6proxy.Text.Numbers.to_digit v6proxy.Text.Numbers.from_str_radix
    v6proxy.Config.Settings.build_filter v6proxy.Config.Egress.build
    v6proxy.Config.Net.parse_net_list v6proxy.Config.Net.parse_net v6proxy.Text.has_char
    v6proxy.Config.Egress.builtin_blocked_nets v6proxy.Config.Settings.validate
    v6proxy.Config.Settings.check_all v6proxy.Acl.Filter.build build_domain_filter
    v6proxy.Acl.Filter.filter_valid_rules v6proxy.Acl.Filter.parse_rules
    v6proxy.Acl.Matcher.add_rule v6proxy.Acl.Matcher.add_rules v6proxy.Acl.Matcher.from_rules
    v6proxy.Acl.Matcher.insert v6proxy.Acl.Rule.canonicalize_rule v6proxy.Acl.Rule.has_bad_character
    v6proxy.Acl.Rule.normalize v6proxy.Acl.Rule.parse_keyword v6proxy.Acl.Rule.parse_rule
    v6proxy.Acl.Rule.parse_trimmed v6proxy.Acl.Rule.parse_zone v6proxy.Acl.Rule.render
    v6proxy.Addr.Socket.parse_socket_addr v6proxy.Addr.parse_ip v6proxy.Api.Proxy.canonical_entries
    v6proxy.Api.Proxy.init_domain_filter v6proxy.Api.Proxy.init_egress_filter
    v6proxy.Api.Proxy.rebuild_domain_filter v6proxy.Api.Proxy.rebuild_egress_filter
    v6proxy.Config.Egress.build_egress_filter v6proxy.Config.Egress.extend_deny
    v6proxy.Config.Egress.filter_valid_nets v6proxy.Config.Net.canonicalize_net
    v6proxy.Config.Pool.prefix_mask v6proxy.Config.Settings.parse_allowlist v6proxy.Startup.ensure
    v6proxy.Startup.or_panic v6proxy.Startup.or_start_error effective_allow
    v6proxy.State.Delta.effective_deny v6proxy.State.Delta.merge_acl
    v6proxy.State.Save.load_policies v6proxy.Text.Numbers.digits_from v6proxy.Text.is_whitespace
    v6proxy.Text.strip_prefix v6proxy.Text.text_eq v6proxy.Text.to_ascii_lowercase
    v6proxy.Text.to_lower v6proxy.Text.trim v6proxy.Text.trim_end_matches
    v6proxy.Text.trim_start_matches
config_starts = refl

abbrev pub zeros : Counters
zeros = record { domain_blocked = 0; egress_blocked = 0 }

abbrev pub smooth : Env
smooth = record {
  now = 10;
  saved_at = 11;
  io = record { write = written; open_ok = true; sync_ok = true; rename_ok = true };
  random = 4;
}

abbrev pub administrator : SocketAddr
administrator = record {
  ip = v6 0x20010db8000000000000000000000007;
  port = 5000;
  flowinfo = 0;
  scope_id = 0;
}

-- Denies one more domain.
abbrev pub deny_request : Request Endpoint
deny_request = record {
  addr = administrator;
  authorization = some (codes "Bearer secret");
  rest = acl_endpoint (post_domains_deny_route (codes "worse.com" ∷ []));
}

abbrev pub requests : List (Env × Counters × Request Endpoint)
requests = (smooth, zeros, deny_request) ∷ []

abbrev pub now_running : Proxy v6_nets
now_running =
    running v6_nets serialize deserialize plain true 1 empty_disk config loaded started requests

abbrev pub client : SocketAddr
client = record { ip = v4 0xcb007114; port = 40000; flowinfo = 0; scope_id = 0 }

-- The site's address is in the range for documentation, which the config allows in part.
abbrev pub site : SocketAddr
site = record { ip = v6 0x20010db8000100000000000000000005; port = 80; flowinfo = 0; scope_id = 0 }

abbrev pub route_world : RouteWorld v6_nets
route_world = record {
  now = 20;
  at_accept = now_running;
  at_domain_check = now_running;
  at_resolve = now_running;
  lookup_host = λ host port. some (site ∷ []);
}

abbrev pub good_host : HostLine
good_host = record {
  spelling = small;
  pad = codes "  ";
  authority = with_port (codes "good.com") (codes "80");
}

abbrev pub asked : Bytes
asked = request (codes "GET / HTTP/1.1") (codes "Accept: */*" ∷ []) good_host []

abbrev pub all_well : ConnectIo
all_well = record { create_ok = true; freebind_ok = true; bind_ok = true; connect_ok = true }

abbrev pub tcp_world : TcpWorld v6_nets
tcp_world = record { peeked = some asked; world = route_world; io = all_well; copy_ok = true }

-- A hasher that adds up what it is fed.
abbrev address_value : IpAddr → ℕ
address_value (v4 a) = a
address_value (v6 a) = a

abbrev pub adding : SipHasher
adding = record {
  State = ℕ;
  new_with_keys = λ k0 k1. k0 + k1;
  write_ip = λ ip s. address_value ip + s;
  write_u16 = λ p s. p + s;
  finish = λ s. s % 2 ^ 64;
}

pub site_opened :
    handle_tcp v6_nets adding (pool ∷ []) tcp_world client 80 zeros
    ≡ found (opened (codes "good.com") 42540766411294682115100131246806692116 site true, zeros)
unfolding handle_tcp v6proxy.Dataplane.Tcp.peek_sni_or_host v6proxy.Dataplane.Tcp.connect_route
    v6proxy.Dataplane.Forward.route v6proxy.Dataplane.Host.extract_http_host
    v6proxy.Text.Utf8.from_utf8 request v6proxy.Dataplane.Host.Laws.send_lines
    v6proxy.Dataplane.Host.Authority.show_authority v6proxy.Dataplane.Host.Laws.show_host_line
    v6proxy.Dataplane.Host.host_loop v6proxy.Dataplane.Host.lines v6proxy.Dataplane.Host.lines_of
    v6proxy.Text.split v6proxy.Dataplane.Host.strip_cr v6proxy.Dataplane.Host.strip_host_name
    v6proxy.Text.strip_prefix v6proxy.Acl.Filter.is_allowed v6proxy.Acl.Matcher.best_match
    v6proxy.Acl.Matcher.matcher_is_empty v6proxy.Acl.Matcher.spec_gt v6proxy.Acl.Matcher.zone_walk
    v6proxy.Acl.Rule.normalize v6proxy.Acl.decide v6proxy.Addr.ip_eq
    v6proxy.Config.Egress.is_allowed v6proxy.Config.Egress.longest v6proxy.Config.Egress.max_of
    v6proxy.Config.Pool.avoid_reserved v6proxy.Config.Pool.host_at v6proxy.Config.Pool.host_mask
    v6proxy.Dataplane.Bytes.index v6proxy.Dataplane.Bytes.read_u16 v6proxy.Dataplane.Bytes.slice
    v6proxy.Dataplane.Forward.binding_of v6proxy.Dataplane.Forward.find_addr
    v6proxy.Dataplane.Forward.is_ipv6 v6proxy.Dataplane.Forward.note_domain_blocked
    v6proxy.Dataplane.Forward.note_egress_blocked v6proxy.Dataplane.Forward.resolve_dst
    v6proxy.Dataplane.Hash.feed v6proxy.Dataplane.Hash.flow_hash
    v6proxy.Dataplane.Hash.pick_outgoing v6proxy.Dataplane.Host.strip_host_port
    v6proxy.Dataplane.Sni.client_hello_sni v6proxy.Dataplane.Sni.extract_tls_sni
    v6proxy.Dataplane.Sni.extract_tls_sni_from_handshake v6proxy.Dataplane.Sni.parse_sni_extension
    v6proxy.Dataplane.Tcp.bind_and_connect v6proxy.Prelude.Map.get v6proxy.Text.count_char
    v6proxy.Text.has_substring v6proxy.Text.is_whitespace v6proxy.Text.split_once
    v6proxy.Text.starts_with v6proxy.Text.text_eq v6proxy.Text.to_ascii_lowercase
    v6proxy.Text.to_lower v6proxy.Text.trim v6proxy.Text.trim_end_matches
    v6proxy.Text.trim_start_matches serve v6proxy.Api.Router.after_request router
    v6proxy.Api.Router.guard v6proxy.Api.Router.authenticated
    v6proxy.Api.Auth.ip_allowlist_middleware v6proxy.Config.Pool.prefix_mask
    v6proxy.Api.Auth.token_middleware v6proxy.Api.Auth.bearer v6proxy.Api.Auth.run_verified
    v6proxy.Api.Auth.verify_token v6proxy.Api.Router.handle v6proxy.Api.Router.acl_router
    v6proxy.Api.Acl.post_domains_deny v6proxy.Api.Acl.mutate_acl v6proxy.Api.Acl.canonicalize_batch
    v6proxy.Acl.Rule.canonicalize_rule v6proxy.Acl.Rule.parse_rule v6proxy.Acl.Rule.parse_zone
    v6proxy.Acl.Rule.has_bad_character v6proxy.State.Save.apply_and_save
    v6proxy.State.Save.save_policies v6proxy.Api.Proxy.rebuild_domain_filter build_domain_filter
    v6proxy.Acl.Filter.build v6proxy.Acl.Filter.parse_rules v6proxy.Acl.Filter.filter_valid_rules
    effective_allow v6proxy.State.Delta.merge_acl v6proxy.Api.Acl.edit_all v6proxy.Api.Acl.edit
    v6proxy.State.Delta.add_deny v6proxy.State.Delta.effective_deny v6proxy.State.Delta.apply_add
    v6proxy.Acl.Matcher.add_rule v6proxy.Acl.Matcher.add_rules v6proxy.Acl.Matcher.from_rules
    v6proxy.Acl.Matcher.insert v6proxy.Acl.Rule.parse_keyword v6proxy.Acl.Rule.parse_trimmed
    v6proxy.Acl.Rule.render v6proxy.Addr.parse_ip v6proxy.Api.Acl.acl_view
    v6proxy.Api.Acl.delete_domains_allow v6proxy.Api.Acl.delete_domains_deny
    v6proxy.Api.Acl.delete_egress_allow v6proxy.Api.Acl.delete_egress_deny
    v6proxy.Api.Acl.get_domains v6proxy.Api.Acl.get_egress v6proxy.Api.Acl.post_domains_allow
    v6proxy.Api.Acl.post_egress_allow v6proxy.Api.Acl.post_egress_deny v6proxy.Api.Acl.view
    v6proxy.Api.Bindings.bindings v6proxy.Api.Bindings.choose v6proxy.Api.Bindings.delete_binding
    v6proxy.Api.Bindings.get_binding v6proxy.Api.Bindings.list_bindings v6proxy.Api.Bindings.modify
    v6proxy.Api.Bindings.patch_hash_policy v6proxy.Api.Bindings.put_binding
    v6proxy.Api.Bindings.put_parsed v6proxy.Api.Bindings.reseed v6proxy.Api.Bindings.save_then
    v6proxy.Api.Bindings.show_binding v6proxy.Api.Bindings.update_binding
    v6proxy.Api.Proxy.rebuild_egress_filter v6proxy.Api.Router.bindings_router
    v6proxy.Api.Router.ip_only v6proxy.Api.Router.metrics_handler v6proxy.Config.Egress.build
    v6proxy.Config.Egress.build_egress_filter v6proxy.Config.Egress.builtin_blocked_nets
    v6proxy.Config.Egress.extend_deny v6proxy.Config.Egress.filter_valid_nets
    v6proxy.Config.Net.canonicalize_net v6proxy.Config.Net.parse_net
    v6proxy.Config.Net.parse_net_list v6proxy.Prelude.Map.insert v6proxy.Prelude.Map.remove
    v6proxy.State.Delta.add_allow v6proxy.State.Delta.apply_del v6proxy.State.Delta.del_allow
    v6proxy.State.Delta.del_deny v6proxy.State.Policy.parse_policy v6proxy.State.Policy.parse_seed
    v6proxy.State.Save.finish_save v6proxy.State.Save.publish v6proxy.State.Save.write_tmp
    v6proxy.Text.Numbers.digits_from v6proxy.Text.Numbers.from_str_radix
    v6proxy.Text.Numbers.to_digit v6proxy.Text.has_char
site_opened = refl
