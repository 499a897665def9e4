-- ===== src/Dataplane/Forward/Resolve.antt =====
-- Which address a name resolves to.
use v6proxy.Prelude.{
  ◌≡◌, ◌≢◌, refl, subst, Bool, true, false, Option, none, some, List, [], ◌∷◌, ok, ◌&&◌, not, any,
  if◌then◌else◌, is_empty, retain, arith, IsAt, here, there, Bool-cases, Option-cases, inl, inr,
}
use v6proxy.Config.Net.{IpNets}
use v6proxy.Config.Egress.{EgressFilter, is_allowed}
use v6proxy.Addr.Socket.{SocketAddr}
use v6proxy.Dataplane.Forward.{is_ipv6, find_addr, Counters, note_egress_blocked, resolve_dst}

module _ (p : SocketAddr → Bool) where
  find_addr_here :
      (x a : SocketAddr) (addrs : List SocketAddr)
      → x ≡ a
      → p x ≡ true
      → is_ipv6 x ≡ true
      → (p a ≡ true) × (is_ipv6 a ≡ true) × IsAt a (x ∷ addrs)
  find_addr_here x a addrs e good six =
      subst (λ y. (p y ≡ true) × (is_ipv6 y ≡ true) × IsAt y (x ∷ addrs)) e (good, six, here)

  find_addr_sound :
      (addrs : List SocketAddr) (a : SocketAddr)
      → find_addr p (retain is_ipv6 addrs) ≡ some a
      → (p a ≡ true) × (is_ipv6 a ≡ true) × IsAt a addrs
  unfolding find_addr
  find_addr_sound [] a h = cc
  find_addr_sound (x ∷ addrs) a h = elim (Bool-cases (is_ipv6 x)) [
    | inl six ↦ elim (Bool-cases (p x)) [
      | inl good ↦ find_addr_here x a addrs (ground (arith, h, six, good)) good six
      | inr bad ↦
          let (good, six', at) = find_addr_sound addrs a (ground (arith, h, six, bad)) in
          (good, six', there at)
    ]
    | inr four ↦
        let (good, six', at) = find_addr_sound addrs a (ground (arith, h, four)) in
        (good, six', there at)
  ]

  find_addr_complete :
      (addrs : List SocketAddr) (a : SocketAddr)
      → IsAt a addrs
      → is_ipv6 a ≡ true
      → p a ≡ true
      → (is_empty (retain is_ipv6 addrs) ≡ false) × (find_addr p (retain is_ipv6 addrs) ≢ none)
  unfolding find_addr
  find_addr_complete [] a at six good = elim at [ ]
  find_addr_complete (x ∷ addrs) a here six good = ground (arith, six, good)
  find_addr_complete (x ∷ addrs) a (there at) six good =
      ground (arith, find_addr_complete addrs a at six good)

module _ (nets : IpNets) where
  -- What a resolved destination is: an IPv6 address of the answer which the filter permits.
  abbrev IsDestination : EgressFilter nets → Option (List SocketAddr) → SocketAddr → Type 0
  IsDestination filter answer dst =
      (addrs : List SocketAddr) × (answer ≡ some addrs)
      × IsAt dst addrs
      × (is_ipv6 dst ≡ true)
      × (is_allowed nets filter dst.ip ≡ true)

  pub resolve_dst_sound :
      (filter : EgressFilter nets) (answer : Option (List SocketAddr)) (k k' : Counters)
      (dst : SocketAddr)
      → resolve_dst nets filter answer k ≡ (ok dst, k')
      → IsDestination filter answer dst
  unfolding resolve_dst
  resolve_dst_sound filter none k k' dst h = absurd (ground (arith, h))
  resolve_dst_sound filter (some addrs) k k' dst h =
      let (good, six, at) =
        find_addr_sound (λ a. is_allowed nets filter a.ip) addrs dst (ground (arith, h)) in
      (addrs, refl, at, six, good)

  pub resolve_dst_complete :
      (filter : EgressFilter nets) (addrs : List SocketAddr) (k : Counters) (a : SocketAddr)
      → IsAt a addrs
      → is_ipv6 a ≡ true
      → is_allowed nets filter a.ip ≡ true
      → (dst : SocketAddr) × (resolve_dst nets filter (some addrs) k ≡ (ok dst, k))
  unfolding resolve_dst
  resolve_dst_complete filter addrs k a at six good =
      let (some_v6, some_good) =
        find_addr_complete (λ x. is_allowed nets filter x.ip) addrs a at six good in
      elim (Option-cases (find_addr (λ x. is_allowed nets filter x.ip) (retain is_ipv6 addrs))) [
        | inl e ↦ absurd (some_good e)
        | inr (dst, e) ↦ (dst, ground (arith, some_v6, e))
      ]

  -- A name with IPv6 addresses, none of which the filter permits.
  unfoldable pub all_refused : EgressFilter nets → Option (List SocketAddr) → Bool
  all_refused filter none = false
  all_refused filter (some addrs) =
      any is_ipv6 addrs && not (any (λ a. is_ipv6 a && is_allowed nets filter a.ip) addrs)

  some_ipv6 : (addrs : List SocketAddr) → is_empty (retain is_ipv6 addrs) ≡ not (any is_ipv6 addrs)
  some_ipv6 [] = refl
  some_ipv6 (a ∷ addrs) = ground (arith, some_ipv6 addrs)

  abbrev is_found : Option SocketAddr → Bool
  is_found none = false
  is_found (some a) = true

  find_addr-any :
      (p : SocketAddr → Bool) (addrs : List SocketAddr)
      → is_found (find_addr p (retain is_ipv6 addrs)) ≡ any (λ a. is_ipv6 a && p a) addrs
  unfolding find_addr
  find_addr-any p [] = refl
  find_addr-any p (a ∷ addrs) = ground (arith, find_addr-any p addrs)

  -- The lookup raises the counter exactly when it finds IPv6 addresses and the filter permits none.
  pub resolve_dst_counts :
      (filter : EgressFilter nets) (answer : Option (List SocketAddr)) (k : Counters)
      → (resolve_dst nets filter answer k).1
        ≡ (if all_refused filter answer then note_egress_blocked k else k)
  unfolding resolve_dst all_refused
  resolve_dst_counts filter none k = refl
  resolve_dst_counts filter (some addrs) k =
      let p : SocketAddr → Bool = λ a. is_allowed nets filter a.ip in
      elim (Option-cases (find_addr p (retain is_ipv6 addrs))) [
        | inl f ↦ ground (arith, some_ipv6 addrs, find_addr-any p addrs, f)
        | inr (dst, f) ↦ ground (arith, some_ipv6 addrs, find_addr-any p addrs, f)
      ]
