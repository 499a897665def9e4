-- ===== src/Config/Egress/Permits.antt =====
-- The egress filter's decision: the longest matching prefix decides, and the built-in ranges are
-- among those denied.
use v6proxy.Prelude.{
  ℕ, ◌≡◌, refl, ◌∙◌, ap, Bool, true, false, not, ◌&&◌, ◌||◌, Option, none, some, List, [], ◌∷◌,
  ◌++◌, is_empty, ltb, any, arith, Bool-cases, inl, inr, IsAt, here, there,
}
use v6proxy.Text.{Text}
use v6proxy.Addr.{IpAddr}
use v6proxy.Acl.{decide}
use v6proxy.State.Delta.{AclDelta, effective_allow, effective_deny}
use v6proxy.Config.Net.{IpNets}
use v6proxy.Config.Egress.{
  EgressFilter, max_of, longest, is_allowed, build_egress_filter, builtin_blocked_nets,
}
use v6proxy.Config.Egress.Build.{valid_nets, build_egress_filter_lem}

module _ (nets : IpNets) (ip : IpAddr) where
  -- Every net that holds the address has a shorter prefix than `len`.
  unfoldable pub longer_than_all : ℕ → List nets.Net → Bool
  longer_than_all len [] = true
  longer_than_all len (d ∷ deny) =
      (not (nets.contains d ip) || ltb (nets.prefix_len d) len) && longer_than_all len deny

  -- An allowed net holds the address with a longer prefix than every denied net that holds it; or
  -- no net is allowed by name and no denied net holds the address.
  unfoldable pub permits : List nets.Net → List nets.Net → Bool
  permits allow deny =
      any (λ a. nets.contains a ip && longer_than_all (nets.prefix_len a) deny) allow
      || (is_empty allow && not (any (λ d. nets.contains d ip) deny))

  abbrev beats : ℕ → Option ℕ → Bool
  beats a none = true
  beats a (some d) = ltb d a

  abbrev wins : Option ℕ → Option ℕ → Bool
  wins none d = false
  wins (some a) d = beats a d

  abbrev is_none : Option ℕ → Bool
  is_none none = true
  is_none (some a) = false

  beats-longest : (a : ℕ) (ns : List nets.Net) → beats a (longest nets ns ip) ≡ longer_than_all a ns
  unfolding longest max_of longer_than_all
  beats-longest a [] = refl
  beats-longest a (n ∷ ns) = ground (arith, beats-longest a ns)

  wins-longest :
      (d : Option ℕ) (ns : List nets.Net)
      → wins (longest nets ns ip) d
        ≡ any (λ a. nets.contains a ip && beats (nets.prefix_len a) d) ns
  unfolding longest max_of
  wins-longest d [] = refl
  wins-longest none (n ∷ ns) = ground (arith, wins-longest none ns)
  wins-longest (some d) (n ∷ ns) = ground (arith, wins-longest (some d) ns)

  is_none-longest :
      (ns : List nets.Net) → is_none (longest nets ns ip) ≡ not (any (λ d. nets.contains d ip) ns)
  unfolding longest max_of
  is_none-longest [] = refl
  is_none-longest (n ∷ ns) = ground (arith, is_none-longest ns)

  decide-eq-wins :
      (a d : Option ℕ) (none_at_all : Bool)
      → (none_at_all ≡ true → is_none a ≡ true)
      → decide (λ x y. ltb y x) a d none_at_all ≡ wins a d || (none_at_all && is_none d)
  unfolding decide
  decide-eq-wins none none e h = ground arith
  decide-eq-wins none (some d) e h = ground arith
  decide-eq-wins (some a) none e h = ground arith
  decide-eq-wins (some a) (some d) e h = ground (arith, h)

  no_net_no_match : (ns : List nets.Net) → is_empty ns ≡ true → is_none (longest nets ns ip) ≡ true
  unfolding longest max_of
  no_net_no_match [] h = refl
  no_net_no_match (n ∷ ns) h = ground arith

  any-beats :
      (allow deny : List nets.Net)
      → any (λ a. nets.contains a ip && beats (nets.prefix_len a) (longest nets deny ip)) allow
        ≡ any (λ a. nets.contains a ip && longer_than_all (nets.prefix_len a) deny) allow
  any-beats [] deny = refl
  any-beats (a ∷ allow) deny =
      ground (arith, any-beats allow deny, beats-longest (nets.prefix_len a) deny)

  pub is_allowed-permits : (f : EgressFilter nets) → is_allowed nets f ip ≡ permits f.allow f.deny
  unfolding is_allowed permits
  is_allowed-permits f =
      decide-eq-wins (longest nets f.allow ip) (longest nets f.deny ip) (is_empty f.allow)
        (no_net_no_match f.allow)
      ∙ ground (
        arith,
        wins-longest (longest nets f.deny ip) f.allow,
        any-beats f.allow f.deny,
        is_none-longest f.deny,
      )

  refused_under :
      (len : ℕ) (b : nets.Net) (deny builtins : List nets.Net)
      → IsAt b builtins
      → nets.contains b ip ≡ true
      → ltb (nets.prefix_len b) len ≡ false
      → longer_than_all len (deny ++ builtins) ≡ false
  unfolding longer_than_all
  refused_under len b [] [] at inside short = elim at [ ]
  refused_under len b [] (x ∷ builtins) here inside short = ground (arith, inside, short)
  refused_under len b [] (x ∷ builtins) (there at) inside short =
      ground (arith, refused_under len b [] builtins at inside short)
  refused_under len b (d ∷ deny) builtins at inside short =
      ground (arith, refused_under len b deny builtins at inside short)

  refused_by :
      (b : nets.Net) (deny builtins allow : List nets.Net)
      → IsAt b builtins
      → nets.contains b ip ≡ true
      → any (λ a. nets.contains a ip && ltb (nets.prefix_len b) (nets.prefix_len a)) allow ≡ false
      → any
          (λ a. nets.contains a ip && longer_than_all (nets.prefix_len a) (deny ++ builtins))
          allow
        ≡ false
  refused_by b deny builtins [] at inside h = refl
  refused_by b deny builtins (a ∷ allow) at inside h =
      elim (Bool-cases (ltb (nets.prefix_len b) (nets.prefix_len a))) [
        | inl longer ↦ ground (arith, longer, h, refused_by b deny builtins allow at inside)
        | inr short ↦ ground (
          arith,
          short,
          h,
          refused_by b deny builtins allow at inside,
          refused_under (nets.prefix_len a) b deny builtins at inside short,
        )
      ]

  any-IsAt :
      (b : nets.Net) (deny builtins : List nets.Net)
      → IsAt b builtins
      → nets.contains b ip ≡ true
      → any (λ d. nets.contains d ip) (deny ++ builtins) ≡ true
  any-IsAt b [] [] at inside = elim at [ ]
  any-IsAt b [] (x ∷ builtins) here inside = ground (arith, inside)
  any-IsAt b [] (x ∷ builtins) (there at) inside = ground (arith, any-IsAt b [] builtins at inside)
  any-IsAt b (d ∷ deny) builtins at inside = ground (arith, any-IsAt b deny builtins at inside)

  pub permits_refused :
      (b : nets.Net) (deny builtins allow : List nets.Net)
      → IsAt b builtins
      → nets.contains b ip ≡ true
      → any (λ a. nets.contains a ip && ltb (nets.prefix_len b) (nets.prefix_len a)) allow ≡ false
      → permits allow (deny ++ builtins) ≡ false
  unfolding permits
  permits_refused b deny builtins allow at inside h =
      ground
        (arith, refused_by b deny builtins allow at inside h, any-IsAt b deny builtins at inside)

  -- The decision of a filter that was built.
  abbrev pub decision : Option (EgressFilter nets × List Text) → Option Bool
  decision none = none
  decision (some (f, bad)) = some (is_allowed nets f ip)

  module _ (builtins : List nets.Net) (parsed : builtin_blocked_nets nets ≡ some builtins)
      (base_allow base_deny : List Text) (delta : AclDelta) where
    -- When the built-in ranges parse, the egress filter built from the config base and the overlay
    -- permits an address exactly if the effective entries do, the built-in ranges counted among the
    -- denied: an allowed net holds it with a longer prefix than every denied net that holds it, or
    -- there is no valid allow entry and no denied net holds it.
    pub build_egress_filter-permits :
        decision (build_egress_filter nets base_allow base_deny delta)
        ≡ some (
            permits
              (valid_nets nets (effective_allow delta base_allow))
              (valid_nets nets (effective_deny delta base_deny) ++ builtins))
    build_egress_filter-permits =
        ap decision (build_egress_filter_lem nets builtins parsed base_allow base_deny delta)
        ∙ ap some (
            is_allowed-permits (record {
              allow = valid_nets nets (effective_allow delta base_allow);
              deny = valid_nets nets (effective_deny delta base_deny) ++ builtins;
            }))

    -- When the built-in ranges parse, an address in a built-in range is refused, whatever the base
    -- and the overlay, unless a valid allow entry that holds the address has a longer prefix than
    -- that range.
    pub builtin_range_refused :
        (b : nets.Net)
        → IsAt b builtins
        → nets.contains b ip ≡ true
        → any
            (λ a. nets.contains a ip && ltb (nets.prefix_len b) (nets.prefix_len a))
            (valid_nets nets (effective_allow delta base_allow))
          ≡ false
        → decision (build_egress_filter nets base_allow base_deny delta) ≡ some false
    builtin_range_refused b at inside h =
        build_egress_filter-permits
        ∙ ap some (
            permits_refused b (valid_nets nets (effective_deny delta base_deny)) builtins
              (valid_nets nets (effective_allow delta base_allow)) at inside h)
