-- ===== src/Dataplane/Tcp/Laws.antt =====
-- What the handling of a TCP connection opens, and that it ends.
use v6proxy.Prelude.{
  ℕ, ◌≡◌, refl, ap, sym, ◌∙◌, Bool, true, false, Option, some, List, Result, ok, err, arith, inl,
  inr, Bool-cases, Option-cases, ap₂, take, ◌==◌, eq_ℕ, any, ltb, ◌&&◌, IsAt,
}
use v6proxy.Text.{Text}
use v6proxy.State.Delta.{effective_allow}
use v6proxy.Config.Pool.{V6Pool}
use v6proxy.Config.Net.{IpNets}
use v6proxy.Config.Egress.{is_allowed, builtin_blocked_nets}
use v6proxy.Config.Egress.Build.{valid_nets}
use v6proxy.Config.Egress.Permits.{decision, builtin_range_refused}
use v6proxy.Api.Acl.Fresh.{IsFresh}
use v6proxy.Dataplane.Hash.{SipHasher}
use v6proxy.Dataplane.Bytes.{Bytes, Parse, found, missing, panic, stuck, ◌>>=◌, IsSafe}
use v6proxy.Dataplane.Bytes.Safe.{bind-IsSafe, if-IsSafe}
use v6proxy.Dataplane.Sni.{extract_tls_sni}
use v6proxy.Dataplane.Sni.Safety.{extract_tls_sni-IsSafe}
use v6proxy.Addr.Socket.{SocketAddr}
use v6proxy.Dataplane.Forward.{
  Counters, Route, no_host, domain_refused, unresolved, no_pool, go, route,
}
use v6proxy.Dataplane.Forward.Laws.{IsPermitted, route-IsPermitted}
use v6proxy.Dataplane.Tcp.{
  attempt, peek_buf_size, peek_sni_or_host, ConnectError, bind_and_connect, TcpWorld, opened,
  after_connect, connect_to, connect_route, handle_tcp,
}

attempt-IsSafe : {A : Type 0} (m : Parse A) → IsSafe m → IsSafe (attempt m)
attempt-IsSafe (found a) h = tt
attempt-IsSafe missing h = tt
attempt-IsSafe panic h = h
attempt-IsSafe stuck h = h

peek_sni_or_host-IsSafe :
    (arrived : Bytes) (local_port : ℕ) → IsSafe (peek_sni_or_host arrived local_port)
unfolding peek_sni_or_host
peek_sni_or_host-IsSafe arrived local_port =
    if-IsSafe (local_port == 443) _ _
      (λ _.
        attempt-IsSafe (extract_tls_sni (take peek_buf_size arrived))
          (extract_tls_sni-IsSafe (take peek_buf_size arrived)))
      (λ _. tt)

clash : (b : Bool) → b ≡ true → some b ≡ some false → ⊥
clash b h e = ground (arith, h, e)

module _ (nets : IpNets) where
  after_connect_sound :
      (host' host : Text) (src' src : ℕ) (dst' dst : SocketAddr) (copy_ok copied : Bool)
      (r : Result ConnectError (Unit {0}))
      → after_connect nets host' src' dst' copy_ok r ≡ opened host src dst copied
      → (host' ≡ host) × (src' ≡ src) × (dst' ≡ dst)
  unfolding after_connect
  after_connect_sound host' host src' src dst' dst copy_ok copied (err e) h =
      absurd (ground (arith, h))
  after_connect_sound host' host src' src dst' dst copy_ok copied (ok done) h = ground (arith, h)

  connect_to_sound :
      (w : TcpWorld nets) (r : Route nets) (host : Text) (src : ℕ) (dst : SocketAddr)
      (copied : Bool)
      → connect_to nets w r ≡ opened host src dst copied
      → r ≡ go host src dst
  unfolding connect_to
  connect_to_sound w (go host' src' dst') host src dst copied h =
      let (a, b, c) =
        after_connect_sound host' host src' src dst' dst w.copy_ok copied
          (bind_and_connect w.io src' dst') h in
      ground (arith, a, b, c)
  connect_to_sound w no_host host src dst copied h = absurd (ground (arith, h))
  connect_to_sound w (domain_refused n) host src dst copied h = absurd (ground (arith, h))
  connect_to_sound w (unresolved e) host src dst copied h = absurd (ground (arith, h))
  connect_to_sound w no_pool host src dst copied h = absurd (ground (arith, h))

  module _ (h : SipHasher) (pools : List V6Pool) (w : TcpWorld nets) (peer : SocketAddr)
      (local_port : ℕ) where
    -- Whatever a client sends, the handling of its connection neither panics nor runs out of fuel.
    pub handle_tcp-IsSafe : (k : Counters) → IsSafe (handle_tcp nets h pools w peer local_port k)
    unfolding handle_tcp
    handle_tcp-IsSafe k = elim (Option-cases w.peeked) [
      | inl e ↦ rw (handle_tcp, e) tt
      | inr (arrived, e) ↦
          rw (handle_tcp, e)
            (bind-IsSafe (peek_sni_or_host arrived local_port) _
              (peek_sni_or_host-IsSafe arrived local_port) λ hostname _. tt)
    ]

    opened_from :
        (k k' : Counters) (arrived : Bytes) (m : Parse (Option Text)) (host : Text) (src : ℕ)
        (dst : SocketAddr) (copied : Bool)
        → (m >>= λ hostname.
            found (connect_route nets w (route nets h pools w.world peer local_port hostname k)))
          ≡ found (opened host src dst copied, k')
        → (hostname : Option Text) × (m ≡ found hostname)
          × (route nets h pools w.world peer local_port hostname k ≡ (go host src dst, k'))
    unfolding connect_route
    opened_from k k' arrived (found hostname) host src dst copied e =
        let r = route nets h pools w.world peer local_port hostname k in
        let went : r.0 ≡ go host src dst =
          connect_to_sound w r.0 host src dst copied (ground (arith, e)) in
        let counted : r.1 ≡ k' = ground (arith, e) in
        (hostname, refl, ap₂ (λ a b. (a, b)) went counted)
    opened_from k k' arrived missing host src dst copied e = absurd (ground (arith, e))
    opened_from k k' arrived panic host src dst copied e = absurd (ground (arith, e))
    opened_from k k' arrived stuck host src dst copied e = absurd (ground (arith, e))

    -- What is behind an opened connection: the first bytes hold the host name, and everything that
    -- the route asks for holds.
    pub record IsOpenedFor (host : Text) (src : ℕ) (dst : SocketAddr) : Type 0 where
      pub arrived : Bytes
      pub peeked : w.peeked ≡ some arrived
      pub hostname : Option Text
      pub read : peek_sni_or_host arrived local_port ≡ found hostname
      pub permitted : IsPermitted nets h pools w.world peer local_port hostname host src dst

    -- When a TCP connection is opened, it is for a host name that was read from the client's first
    -- bytes and passed the domain filter, to an IPv6 address of that name that passed the egress
    -- filter, from the address picked for the client's binding.
    pub handle_tcp_opens :
        (k k' : Counters) (host : Text) (src : ℕ) (dst : SocketAddr) (copied : Bool)
        → handle_tcp nets h pools w peer local_port k ≡ found (opened host src dst copied, k')
        → IsOpenedFor host src dst
    unfolding handle_tcp
    handle_tcp_opens k k' host src dst copied e = elim (Option-cases w.peeked) [
      | inl nothing ↦ absurd (ground (arith, e, nothing))
      | inr (arrived, some_bytes) ↦
          let (hostname, read, routed) =
            opened_from k k' arrived (peek_sni_or_host arrived local_port) host src dst copied
              (ground (arith, e, some_bytes)) in
          record {
            arrived = arrived;
            peeked = some_bytes;
            hostname = hostname;
            read = read;
            permitted =
                route-IsPermitted nets h pools w.world peer local_port hostname k k' host src dst
                  routed;
          }
    ]

    -- When moreover the egress filter at the time of the lookup was that of the config and the
    -- overlay, and the built-in ranges parse, a destination in a built-in range has been allowed by
    -- a valid allow entry with a longer prefix than that range.
    pub handle_tcp_builtin :
        (k k' : Counters) (host : Text) (src : ℕ) (dst : SocketAddr) (copied : Bool)
        (builtins : List nets.Net) (b : nets.Net)
        → handle_tcp nets h pools w peer local_port k ≡ found (opened host src dst copied, k')
        → builtin_blocked_nets nets ≡ some builtins
        → IsFresh nets w.world.at_resolve
        → IsAt b builtins
        → nets.contains b dst.ip ≡ true
        → any
            (λ a. nets.contains a dst.ip && ltb (nets.prefix_len b) (nets.prefix_len a))
            (valid_nets nets (
              effective_allow w.world.at_resolve.store.policies.egress_acl
                w.world.at_resolve.egress_base.0))
          ≡ true
    handle_tcp_builtin k k' host src dst copied builtins b e parsed fresh at inside =
        let s = w.world.at_resolve in
        let opened_for = handle_tcp_opens k k' host src dst copied e in
        let allowed = opened_for.permitted.dst_allowed in
        let longer =
          any (λ a. nets.contains a dst.ip && ltb (nets.prefix_len b) (nets.prefix_len a))
            (valid_nets nets (effective_allow s.store.policies.egress_acl s.egress_base.0)) in
        elim (Bool-cases longer) [
          | inl yes_longer ↦ yes_longer
          | inr not_longer ↦ absurd (
              clash (is_allowed nets s.egress_filter dst.ip) allowed (
                sym (ap (decision nets dst.ip) fresh.egress_fresh)
                ∙ builtin_range_refused nets dst.ip builtins parsed s.egress_base.0 s.egress_base.1
                    s.store.policies.egress_acl b at inside not_longer))
        ]
