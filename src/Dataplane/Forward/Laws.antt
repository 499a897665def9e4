-- ===== src/Dataplane/Forward/Laws.antt =====
-- Where a connection may go, and what is counted.
use v6proxy.Prelude.{
  ℕ, ◌≡◌, ◌≢◌, refl, sym, ap, ◌∙◌, true, Option, none, some, List, [], Result, ok, err,
  if◌then◌else◌, arith, IsAt, Bool-cases, inl, inr, All,
}
use v6proxy.Text.{Text}
use v6proxy.Acl.Filter
use v6proxy.Config.Pool.{V6Pool}
use v6proxy.Config.Pool.Bounds.{IsPool}
use v6proxy.Config.Net.{IpNets}
use v6proxy.Config.Egress.{is_allowed}
use v6proxy.Dataplane.Hash.{SipHasher, pick_outgoing}
use v6proxy.Dataplane.Hash.Laws.{InPool, IsWide, pick_outgoing-InPool}
use v6proxy.Addr.Socket.{SocketAddr}
use v6proxy.Dataplane.Forward.{
  is_ipv6, Counters, note_domain_blocked, note_egress_blocked, ResolveError, resolve_dst,
  binding_of, RouteWorld, domain_refused, go, route, after_resolve, after_pick,
}
use v6proxy.Dataplane.Forward.Resolve.{resolve_dst_sound, resolve_dst_complete, all_refused}

module _ (nets : IpNets) where
  -- The counters that a connection should leave, from what the filters say of the name asked for
  -- and of its addresses.
  unfoldable pub tally : RouteWorld nets → ℕ → Option Text → Counters → Counters
  tally w port none k = k
  tally w port (some host) k =
      if Filter.is_allowed w.at_domain_check.domain_filter host
      then if all_refused nets w.at_resolve.egress_filter (w.lookup_host host port)
        then note_egress_blocked k
        else k
      else note_domain_blocked k

  module _ (h : SipHasher) (pools : List V6Pool) (w : RouteWorld nets) (peer : SocketAddr)
      (port : ℕ) where
    -- What holds of every connection that is let through.
    pub record IsPermitted (hostname : Option Text) (host : Text) (src : ℕ) (dst : SocketAddr)
        : Type 0 where
      pub asked : hostname ≡ some host
      pub host_allowed : Filter.is_allowed w.at_domain_check.domain_filter host ≡ true
      pub addrs : List SocketAddr
      pub resolved : w.lookup_host host port ≡ some addrs
      pub among : IsAt dst addrs
      pub six : is_ipv6 dst ≡ true
      pub dst_allowed : is_allowed nets w.at_resolve.egress_filter dst.ip ≡ true
      pub picked :
          pick_outgoing h pools
            (binding_of nets w.now w.at_accept peer.ip)
            peer.ip
            dst.ip
            peer.port
            port
          ≡ some src

    after_pick_sound :
        (host' host : Text) (dst' dst : SocketAddr) (k k' : Counters) (o : Option ℕ) (src : ℕ)
        → after_pick nets h pools w peer port host' dst' k o ≡ (go host src dst, k')
        → (host' ≡ host) × (dst' ≡ dst) × (o ≡ some src)
    unfolding after_pick
    after_pick_sound host' host dst' dst k k' none src e = absurd (ground (arith, e))
    after_pick_sound host' host dst' dst k k' (some s) src e = ground (arith, e)

    after_resolve_sound :
        (host' host : Text) (r : Result ResolveError SocketAddr × Counters) (src : ℕ)
        (dst : SocketAddr) (k' : Counters)
        → after_resolve nets h pools w peer port host' r ≡ (go host src dst, k')
        → (host' ≡ host)
          × (r ≡ (ok dst, r.1))
          × (pick_outgoing h pools
                (binding_of nets w.now w.at_accept peer.ip)
                peer.ip
                dst.ip
                peer.port
                port
              ≡ some src)
    unfolding after_resolve
    after_resolve_sound host' host (err e, k1) src dst k' eq = absurd (ground (arith, eq))
    after_resolve_sound host' host (ok dst', k1) src dst k' eq =
        let pick : SocketAddr → Option ℕ = λ d.
          pick_outgoing h pools (binding_of nets w.now w.at_accept peer.ip) peer.ip d.ip peer.port
            port in
        let (same_host, same_dst, picked) =
          after_pick_sound host' host dst' dst k1 k' (pick dst') src eq in
        (same_host, ap (λ d. (ok d, k1)) same_dst, ap pick (sym same_dst) ∙ picked)

    route_host_sound :
        (host' host : Text) (k k' : Counters) (src : ℕ) (dst : SocketAddr)
        → route nets h pools w peer port (some host') k ≡ (go host src dst, k')
        → (Filter.is_allowed w.at_domain_check.domain_filter host' ≡ true)
          × (after_resolve nets h pools w peer port host'
                (resolve_dst nets w.at_resolve.egress_filter (w.lookup_host host' port) k)
              ≡ (go host src dst, k'))
    unfolding route
    route_host_sound host' host k k' src dst e =
        elim (Bool-cases (Filter.is_allowed w.at_domain_check.domain_filter host')) [
          | inl good ↦ (
            good,
            ap
                  (λ b.
                    if b
                    then after_resolve nets h pools w peer port host'
                        (resolve_dst nets w.at_resolve.egress_filter (w.lookup_host host' port) k)
                    else (domain_refused host', note_domain_blocked k))
                  (sym good)
                ∙ e,
          )
          | inr bad ↦ absurd (ground (arith, e, bad))
        ]

    -- Where a connection goes, its host name was asked for and passed the domain filter, its
    -- destination is an IPv6 address of the name's that passed the egress filter, and its source is
    -- the picked one, each with the state at the time of that check.
    pub route-IsPermitted :
        (hostname : Option Text) (k k' : Counters) (host : Text) (src : ℕ) (dst : SocketAddr)
        → route nets h pools w peer port hostname k ≡ (go host src dst, k')
        → IsPermitted hostname host src dst
    unfolding route
    route-IsPermitted none k k' host src dst e = absurd (ground (arith, e))
    route-IsPermitted (some host') k k' host src dst e =
        let (good, rest) = route_host_sound host' host k k' src dst e in
        let answer = resolve_dst nets w.at_resolve.egress_filter (w.lookup_host host' port) k in
        let (same, resolved, picked) = after_resolve_sound host' host answer src dst k' rest in
        let (addrs, found, at, six, fine) =
          resolve_dst_sound nets w.at_resolve.egress_filter (w.lookup_host host' port) k answer.1
            dst resolved in
        record {
          asked = ap some same;
          host_allowed = ap (Filter.is_allowed w.at_domain_check.domain_filter) (sym same) ∙ good;
          addrs = addrs;
          resolved = ap (λ n. w.lookup_host n port) (sym same) ∙ found;
          among = at;
          six = six;
          dst_allowed = fine;
          picked = picked;
        }

    -- A name that passes the domain filter, and one of whose addresses is an IPv6 address that
    -- passes the egress filter, is always routed, when there are pools, each of more than one
    -- address.
    pub route_goes :
        (host : Text) (k : Counters) (addrs : List SocketAddr) (a : SocketAddr)
        → Filter.is_allowed w.at_domain_check.domain_filter host ≡ true
        → w.lookup_host host port ≡ some addrs
        → IsAt a addrs
        → is_ipv6 a ≡ true
        → is_allowed nets w.at_resolve.egress_filter a.ip ≡ true
        → pools ≢ []
        → All IsPool pools
        → All IsWide pools
        → (src : ℕ) × (dst : SocketAddr) × (route nets h pools w peer port (some host) k
            ≡ (go host src dst, k))
          × ((p : V6Pool) × IsAt p pools × InPool p src)
    unfolding route after_resolve after_pick
    route_goes host k addrs a good found at six fine nonempty valid wide =
        let (dst, resolved) =
          resolve_dst_complete nets w.at_resolve.egress_filter addrs k a at six fine in
        let (src, picked, inside) =
          pick_outgoing-InPool h pools (binding_of nets w.now w.at_accept peer.ip) peer.ip dst.ip
            peer.port port nonempty valid wide in
        (src, dst, rw (good, found, resolved, picked) refl, inside)
