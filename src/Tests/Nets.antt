-- ===== src/Tests/Nets.antt =====
-- A concrete network type: IPv6 prefixes, read by the pool parser or from what `show` writes.
use Prim.Native.Nat.{bit_and}
use v6proxy.Prelude.{
  ℕ, ◌≡◌, refl, Bool, false, Option, some, List, [], ◌∷◌, ◌==◌, eq_ℕ, ok?, if◌then◌else◌,
}
use v6proxy.Text.{Text}
use v6proxy.Addr.{IpAddr, v4, v6}
use v6proxy.Config.Pool.{V6Pool, prefix_mask, parse}
use v6proxy.Config.Net.{IpNets}
use v6proxy.Config.Egress.{builtin_blocked_nets}

abbrev host_route : IpAddr → V6Pool
host_route (v4 a) = record { prefix = a; prefix_len = 128 }
host_route (v6 a) = record { prefix = a; prefix_len = 128 }

abbrev holds : V6Pool → IpAddr → Bool
holds p (v4 a) = false
holds p (v6 a) = bit_and a (prefix_mask p.prefix_len) == p.prefix

abbrev read_net : Text → Option V6Pool
read_net (c ∷ prefix ∷ len ∷ []) =
    if c == 47
    then some (record { prefix = prefix; prefix_len = len })
    else ok? (parse (c ∷ prefix ∷ len ∷ []))
read_net s = ok? (parse s)

abbrev pub v6_nets : IpNets
v6_nets = record {
  Net = V6Pool;
  parse_cidr = read_net;
  of_ip = host_route;
  contains = holds;
  prefix_len = λ p. p.prefix_len;
  trunc = λ p. p;
  show = λ p. 47 ∷ p.prefix ∷ p.prefix_len ∷ [];
}

abbrev net : ℕ → ℕ → V6Pool
net prefix len = record { prefix = prefix; prefix_len = len }

abbrev pub builtins : List V6Pool
builtins =
    net 1 128
    ∷ net 0 128
    ∷ net 0 96
    ∷ net 0xfe800000000000000000000000000000 10
    ∷ net 0xfc000000000000000000000000000000 7
    ∷ net 0xff000000000000000000000000000000 8
    ∷ net 0xffff00000000 96
    ∷ net 0x64ff9b000000000000000000000000 96
    ∷ net 0x20020000000000000000000000000000 16
    ∷ net 0x20010db8000000000000000000000000 32
    ∷ []

pub builtin_ranges_parse : builtin_blocked_nets v6_nets ≡ some builtins
unfolding builtin_blocked_nets parse v6proxy.Text.split v6proxy.Addr.parse_ipv6
    v6proxy.Text.Numbers.to_digit v6proxy.Text.Numbers.from_str_radix prefix_mask
builtin_ranges_parse = refl
