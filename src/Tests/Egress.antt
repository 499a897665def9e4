-- ===== src/Tests/Egress.antt =====
-- The egress filter of src/config.rs at concrete networks.
use v6proxy.Prelude.{◌≡◌, refl, true, false, ◌&&◌, some, List, [], ◌∷◌, ◌++◌, here, there, any, ltb}
use v6proxy.Text.{Text, codes}
use v6proxy.Addr.{IpAddr, v6}
use v6proxy.State.Delta.{AclDelta, empty_delta, effective_allow, effective_deny}
use v6proxy.Config.Egress.{build_egress_filter}
use v6proxy.Config.Egress.Build.{valid_nets}
use v6proxy.Config.Egress.Permits.{
  permits, decision, build_egress_filter-permits, builtin_range_refused,
}
use v6proxy.Tests.Nets.{v6_nets, builtins, builtin_ranges_parse}

-- `fe80::1`, a link-local address
abbrev link_local : IpAddr
link_local = v6 0xfe800000000000000000000000000001

abbrev wide_allow : List Text
wide_allow = codes "::/0" ∷ []

build_egress_filter-permits_example :
    decision v6_nets link_local (build_egress_filter v6_nets wide_allow [] empty_delta)
    ≡ some (
        permits v6_nets link_local
          (valid_nets v6_nets (effective_allow empty_delta wide_allow))
          (valid_nets v6_nets (effective_deny empty_delta []) ++ builtins))
build_egress_filter-permits_example =
    build_egress_filter-permits v6_nets link_local builtins builtin_ranges_parse wide_allow []
      empty_delta

abbrev link_local_range : v6_nets.Net
link_local_range = record { prefix = 0xfe800000000000000000000000000000; prefix_len = 10 }

no_longer_allow :
    any
      (λ a.
        v6_nets.contains a link_local
        && ltb (v6_nets.prefix_len link_local_range) (v6_nets.prefix_len a))
      (valid_nets v6_nets (effective_allow empty_delta wide_allow))
    ≡ false
unfolding valid_nets effective_allow v6proxy.State.Delta.merge_acl v6proxy.Config.Net.parse_net
    v6proxy.Text.has_char v6proxy.Config.Pool.parse v6proxy.Text.split v6proxy.Addr.parse_ipv6
    v6proxy.Text.Numbers.to_digit v6proxy.Text.Numbers.from_str_radix
    v6proxy.Config.Pool.prefix_mask
no_longer_allow = refl

link_local_inside : v6_nets.contains link_local_range link_local ≡ true
unfolding v6proxy.Config.Pool.prefix_mask
link_local_inside = refl

builtin_range_refused_example :
    decision v6_nets link_local (build_egress_filter v6_nets wide_allow [] empty_delta) ≡ some false
builtin_range_refused_example =
    builtin_range_refused v6_nets link_local builtins builtin_ranges_parse wide_allow [] empty_delta
      link_local_range (there (there (there here))) link_local_inside no_longer_allow
