-- ===== src/Tests/Flow.antt =====
-- Pools of src/config.rs and picks of src/dataplane/hash.rs at concrete addresses.
use v6proxy.Prelude.{ℕ, ◌+◌, ◌-◌, ◌/◌, ◌%◌, ◌^◌, ◌≡◌, ◌≢◌, refl, some, [], ◌∷◌, ok, IsAt, arith}
use v6proxy.Text.{Text, codes}
use v6proxy.Addr.{IpAddr, v4, v6}
use v6proxy.State.Policy.{src_ip, five_tuple, Binding}
use v6proxy.Config.Pool.{V6Pool, parse, host_at}
use v6proxy.Config.Pool.Bounds.{IsPool, host_at-in_pool, host_at_host, host_at_single}
use v6proxy.Dataplane.Hash.{SipHasher, pick_outgoing}
use v6proxy.Dataplane.Hash.Laws.{InPool, pick_outgoing-InPool, pick_outgoing-src_ip}

abbrev pool : V6Pool
pool = record { prefix = 0x20010db8000a00000000000000000000; prefix_len = 64 }

abbrev single : V6Pool
single = record { prefix = 0x20010db8000a00000000000000000000; prefix_len = 128 }

pool-IsPool : IsPool pool
pool-IsPool = record { fits = omega arith; aligned = refl }

single-IsPool : IsPool single
single-IsPool = record { fits = omega arith; aligned = refl }

-- A hasher that adds up what it is fed.
abbrev address_value : IpAddr → ℕ
address_value (v4 a) = a
address_value (v6 a) = a

abbrev adding : SipHasher
adding = record {
  State = ℕ;
  new_with_keys = λ k0 k1. k0 + k1;
  write_ip = λ ip s. address_value ip + s;
  write_u16 = λ p s. p + s;
  finish = λ s. s % 2 ^ 64;
}

abbrev by_source : Binding
by_source = record { policy = src_ip; seed = 3; updated_at = 0 }

pool_parsed : parse (codes "2001:db8:a::/64") ≡ ok pool
unfolding parse v6proxy.Text.split v6proxy.Addr.parse_ipv6 v6proxy.Text.Numbers.to_digit
    v6proxy.Text.Numbers.from_str_radix v6proxy.Config.Pool.prefix_mask
pool_parsed = refl

host_at-in_pool_example : host_at pool 77 / 2 ^ 64 ≡ pool.prefix / 2 ^ 64
host_at-in_pool_example = host_at-in_pool pool 77 pool-IsPool (omega arith)

host_at_host_example : (host_at pool 0 % 2 ^ 64 ≢ 0) × (host_at pool 0 % 2 ^ 64 ≢ 2 ^ 64 - 1)
host_at_host_example = host_at_host pool 0 pool-IsPool (omega arith)

host_at_single_example : host_at single 77 ≡ single.prefix + 1
host_at_single_example = host_at_single single 77 single-IsPool refl refl

some_pools : (pool ∷ []) ≢ []
some_pools = λ e. cc

pick_outgoing-InPool_example :
    (a : ℕ) × (pick_outgoing adding (pool ∷ []) by_source (v4 9) (v6 8) 1 443 ≡ some a)
    × ((p : V6Pool) × IsAt p (pool ∷ []) × InPool p a)
pick_outgoing-InPool_example =
    pick_outgoing-InPool adding (pool ∷ []) by_source (v4 9) (v6 8) 1 443 some_pools
      (pool-IsPool, tt) (omega arith, tt)

pick_outgoing-src_ip_example :
    pick_outgoing adding (pool ∷ []) by_source (v4 9) (v6 8) 1 443
    ≡ pick_outgoing adding (pool ∷ []) by_source (v4 9) (v6 7) 2 80
pick_outgoing-src_ip_example =
    pick_outgoing-src_ip adding (pool ∷ []) by_source (v4 9) (v6 8) (v6 7) 1 443 2 80 refl

not_five_tuple : by_source.policy ≢ five_tuple
not_five_tuple = λ e. cc
