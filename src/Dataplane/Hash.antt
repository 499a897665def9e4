-- ===== src/Dataplane/Hash.antt =====
-- src/dataplane/hash.rs: the outgoing address of a flow. The SipHash crate is a parameter.
pub mod Laws
use v6proxy.Prelude.{
  ℕ, ◌-◌, ◌+◌, ◌*◌, ◌/◌, ◌%◌, ◌^◌, ◌<◌, Option, none, some, List, [], ◌∷◌, length, get_elem?,
}
use mathlib.Core.Option
use v6proxy.Addr.{IpAddr}
use v6proxy.State.Policy.{HashPolicy, src_ip, src_dst, five_tuple, Binding}
use v6proxy.Config.Pool.{V6Pool, host_at}

-- `SipHasher24` and how the standard `Hash` instances feed it.
pub record SipHasher : Type 1 where
  pub State : Type 0
  pub new_with_keys : ℕ → ℕ → State
  pub write_ip : IpAddr → State → State
  pub write_u16 : ℕ → State → State
  pub finish : State → ℕ

-- `rotate_left` on 64 bits
abbrev pub rotate_left64 : ℕ → ℕ → ℕ
rotate_left64 x k = x * 2 ^ k % 2 ^ 64 + x / 2 ^ (64 - k)

module _ (h : SipHasher) where
  open h use {State, new_with_keys, write_ip, write_u16, finish}

  -- What the policy feeds to the hasher.
  unfoldable pub feed : HashPolicy → IpAddr → IpAddr → ℕ → ℕ → State → State
  feed src_ip src dst src_port dst_port s = write_ip src s
  feed src_dst src dst src_port dst_port s = write_ip dst (write_ip src s)
  feed five_tuple src dst src_port dst_port s =
      write_u16 dst_port (write_u16 src_port (write_ip dst (write_ip src s)))

  unfoldable pub flow_hash : Binding → IpAddr → IpAddr → ℕ → ℕ → ℕ
  unfolding feed
  flow_hash b src dst src_port dst_port =
      finish
        (feed b.policy src dst src_port dst_port (new_with_keys b.seed (rotate_left64 b.seed 17)))

  unfoldable pub pick_outgoing : List V6Pool → Binding → IpAddr → IpAddr → ℕ → ℕ → Option ℕ
  pick_outgoing [] b src dst src_port dst_port = none
  pick_outgoing (p ∷ pools) b src dst src_port dst_port =
      let hash = flow_hash b src dst src_port dst_port in
      Option.map (λ pool. host_at pool hash) (get_elem? (p ∷ pools) (hash % length (p ∷ pools)))
