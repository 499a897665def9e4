-- ===== src/Dataplane/Hash/Laws.antt =====
-- What `pick_outgoing` promises, for every hasher.

use native.Mathlib.Nat.{mod-lt}
use v6proxy.Prelude.{
  ℕ, ◌-◌, ◌/◌, ◌%◌, ◌^◌, ◌<◌, ◌≡◌, ◌≢◌, refl, ap, some, List, [], ◌∷◌, length, get_elem?, All, IsAt,
  get_elem?-lt, All-at, arith,
}
use v6proxy.Addr.{IpAddr}
use v6proxy.State.Policy.{HashPolicy, src_ip, src_dst, five_tuple, Binding}
use v6proxy.Config.Pool.{V6Pool, host_at}
use v6proxy.Config.Pool.Bounds.{IsPool, host_at-in_pool}
use v6proxy.Dataplane.Hash.{SipHasher, flow_hash, pick_outgoing, feed, rotate_left64}

-- The address has the pool's prefix.
abbrev pub InPool : V6Pool → ℕ → Type 0
InPool p a = a / 2 ^ (128 - p.prefix_len) ≡ p.prefix / 2 ^ (128 - p.prefix_len)

-- A pool of more than one address.
abbrev pub IsWide : V6Pool → Type 0
IsWide p = p.prefix_len < 128

length_pos : (pools : List V6Pool) → pools ≢ [] → 0 < length pools
length_pos [] h = absurd (h refl)
length_pos (p ∷ pools) h = omega arith

module _ (h : SipHasher) (b : Binding) where
  pick_outgoing_at :
      (pools : List V6Pool) (src dst : IpAddr) (src_port dst_port : ℕ) (p : V6Pool)
      → get_elem? pools (flow_hash h b src dst src_port dst_port % length pools) ≡ some p
      → pick_outgoing h pools b src dst src_port dst_port
        ≡ some (host_at p (flow_hash h b src dst src_port dst_port))
  unfolding pick_outgoing
  pick_outgoing_at [] src dst src_port dst_port p found = cc
  pick_outgoing_at (q ∷ pools) src dst src_port dst_port p found = rw found

  -- Flows with one hash get one address.
  pick_outgoing-flow_hash :
      (pools : List V6Pool) (src dst dst' : IpAddr) (src_port dst_port src_port' dst_port' : ℕ)
      → flow_hash h b src dst src_port dst_port ≡ flow_hash h b src dst' src_port' dst_port'
      → pick_outgoing h pools b src dst src_port dst_port
        ≡ pick_outgoing h pools b src dst' src_port' dst_port'
  unfolding pick_outgoing
  pick_outgoing-flow_hash [] src dst dst' src_port dst_port src_port' dst_port' e = refl
  pick_outgoing-flow_hash (p ∷ pools) src dst dst' src_port dst_port src_port' dst_port' e = rw e

  feed_ports :
      (policy : HashPolicy) (src dst : IpAddr) (src_port dst_port src_port' dst_port' : ℕ)
      (s : h.State)
      → policy ≢ five_tuple
      → feed h policy src dst src_port dst_port s ≡ feed h policy src dst src_port' dst_port' s
  unfolding feed
  feed_ports src_ip src dst src_port dst_port src_port' dst_port' s e = refl
  feed_ports src_dst src dst src_port dst_port src_port' dst_port' s e = refl
  feed_ports five_tuple src dst src_port dst_port src_port' dst_port' s e = absurd (e refl)

module _ (h : SipHasher) (pools : List V6Pool) (b : Binding) where
  -- From pools that are not empty, and each of more than one address, an address is always picked,
  -- and it has the prefix of one of the pools.
  pub pick_outgoing-InPool :
      (src dst : IpAddr) (src_port dst_port : ℕ)
      → pools ≢ []
      → All IsPool pools
      → All IsWide pools
      → (a : ℕ) × (pick_outgoing h pools b src dst src_port dst_port ≡ some a)
        × ((p : V6Pool) × IsAt p pools × InPool p a)
  pick_outgoing-InPool src dst src_port dst_port nonempty valid wide =
      let hash = flow_hash h b src dst src_port dst_port in
      let (p, found, at) =
        get_elem?-lt pools (hash % length pools) (mod-lt hash (length_pos pools nonempty)) in
      (
        host_at p hash,
        pick_outgoing_at h b pools src dst src_port dst_port p found,
        (
          p,
          at,
          host_at-in_pool p hash (All-at IsPool pools p valid at) (All-at IsWide pools p wide at),
        ),
      )

  -- Under `src_ip` the address depends on the source address alone.
  pub pick_outgoing-src_ip :
      (src dst dst' : IpAddr) (src_port dst_port src_port' dst_port' : ℕ)
      → b.policy ≡ src_ip
      → pick_outgoing h pools b src dst src_port dst_port
        ≡ pick_outgoing h pools b src dst' src_port' dst_port'
  pick_outgoing-src_ip src dst dst' src_port dst_port src_port' dst_port' e =
      pick_outgoing-flow_hash h b pools src dst dst' src_port dst_port src_port' dst_port'
        (unfold flow_hash in rw (e, feed))

  -- Under every policy but `five_tuple` the picked address does not depend on the ports.
  pub pick_outgoing_ports :
      (src dst : IpAddr) (src_port dst_port src_port' dst_port' : ℕ)
      → b.policy ≢ five_tuple
      → pick_outgoing h pools b src dst src_port dst_port
        ≡ pick_outgoing h pools b src dst src_port' dst_port'
  pick_outgoing_ports src dst src_port dst_port src_port' dst_port' e =
      pick_outgoing-flow_hash h b pools src dst dst src_port dst_port src_port' dst_port' (
        unfold flow_hash in
        ap h.finish (
          feed_ports h b b.policy src dst src_port dst_port src_port' dst_port'
            (h.new_with_keys b.seed (rotate_left64 b.seed 17)) e))
