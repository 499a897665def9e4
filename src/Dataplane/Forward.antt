-- ===== src/Dataplane/Forward.antt =====
-- src/dataplane/forward.rs, and the course that src/dataplane/tcp.rs and src/dataplane/quic.rs share
-- from the host name to the outgoing address. DNS and the sockets are arguments.
pub mod Resolve
pub mod Laws
use v6proxy.Prelude.{
  ℕ, ◌+◌, ◌%◌, ◌^◌, ◌≡◌, ◌↔◌, Bool, true, false, ◌&&◌, Option, none, some, List, [], ◌∷◌, Result,
  ok, err, if◌then◌else◌, Eq, ◌==◌, eq_ℕ, is_empty, retain, arith,
}
use v6proxy.Prelude.Map.{get}
use v6proxy.Text.{Text}
use v6proxy.Addr.Socket.{SocketAddr}
use v6proxy.Addr.{IpAddr, v4, v6, eq_ip, ip_eq_iff}
use v6proxy.State.Policy.{Binding}
use v6proxy.Acl.Filter
use v6proxy.Config.Pool.{V6Pool}
use v6proxy.Config.Net.{IpNets}
use v6proxy.Config.Egress.{EgressFilter, is_allowed}
use v6proxy.Api.Proxy.{Proxy}
use v6proxy.Dataplane.Hash.{SipHasher, pick_outgoing}

unfoldable pub is_ipv6 : SocketAddr → Bool
is_ipv6 a = elim a.ip [ v4 n ↦ false | v6 n ↦ true ]

-- `Iterator::find`
unfoldable pub find_addr : (SocketAddr → Bool) → List SocketAddr → Option SocketAddr
find_addr p [] = none
find_addr p (a ∷ addrs) = if p a then some a else find_addr p addrs

-- DOMAIN_BLOCKED and EGRESS_BLOCKED; `fetch_add` wraps.
pub record Counters : Type 0 where
  pub domain_blocked : ℕ
  pub egress_blocked : ℕ

unfoldable pub note_domain_blocked : Counters → Counters
note_domain_blocked k = record k { domain_blocked = (k.domain_blocked + 1) % 2 ^ 64 }

unfoldable pub note_egress_blocked : Counters → Counters
note_egress_blocked k = record k { egress_blocked = (k.egress_blocked + 1) % 2 ^ 64 }

pub data ResolveError : Type 0 where
  dns_failed no_aaaa_record all_blocked : ResolveError

module _ (nets : IpNets) where
  -- `found_addrs` is the answer to the lookup of `host:port`, `none` a failed lookup.
  unfoldable pub resolve_dst :
      EgressFilter nets
      → Option (List SocketAddr)
      → Counters
      → Result ResolveError SocketAddr × Counters
  resolve_dst filter found_addrs k = elim found_addrs [
    | none ↦ (err dns_failed, k)
    | some addrs ↦
        let v6_addrs = retain is_ipv6 addrs in
        let chosen : Result ResolveError SocketAddr × Counters =
          elim (find_addr (λ a. is_allowed nets filter a.ip) v6_addrs) [
            | some a ↦ (ok a, k)
            | none ↦ (err all_blocked, note_egress_blocked k)
          ] in
        if is_empty v6_addrs then (err no_aaaa_record, k) else chosen
  ]

  -- The binding of a client, or the default at the time `now`.
  unfoldable pub binding_of : ℕ → Proxy nets → IpAddr → Binding
  binding_of now s ip = elim (get s.store.policies.bindings ip) [
    | some b ↦ b
    | none ↦ record {
      policy = s.default_hash_policy;
      seed = s.default_binding_seed;
      updated_at = now;
    }
  ]

  -- What one connection sees: the clock, the shared state at each of the three times that it is
  -- loaded, and the name service.
  pub record RouteWorld : Type 0 where
    pub now : ℕ
    pub at_accept : Proxy nets
    pub at_domain_check : Proxy nets
    pub at_resolve : Proxy nets
    pub lookup_host : Text → ℕ → Option (List SocketAddr)

  -- Where a connection goes.
  pub data Route : Type 0 where
    no_host : Route
    domain_refused : Text → Route
    unresolved : ResolveError → Route
    no_pool : Route
    go : Text → ℕ → SocketAddr → Route

  module _ (h : SipHasher) (pools : List V6Pool) (w : RouteWorld) (peer : SocketAddr)
      (port : ℕ) where
    after_pick : Text → SocketAddr → Counters → Option ℕ → Route × Counters
    after_pick host dst k none = (no_pool, k)
    after_pick host dst k (some src) = (go host src dst, k)

    after_resolve : Text → Result ResolveError SocketAddr × Counters → Route × Counters
    unfolding after_pick
    after_resolve host (err e, k) = (unresolved e, k)
    after_resolve host (ok dst, k) =
        after_pick host dst k (
          pick_outgoing h pools (binding_of w.now w.at_accept peer.ip) peer.ip dst.ip peer.port
            port)

    unfoldable pub route : Option Text → Counters → Route × Counters
    unfolding after_resolve
    route none k = (no_host, k)
    route (some host) k =
        if Filter.is_allowed w.at_domain_check.domain_filter host
        then after_resolve host (resolve_dst w.at_resolve.egress_filter (w.lookup_host host port) k)
        else (domain_refused host, note_domain_blocked k)
