-- ===== src/Config/Egress.antt =====
-- `EgressFilter` of src/config.rs, and building it from the config base and the overlay, of
-- src/acl.rs.
pub mod Build
pub mod Permits
use v6proxy.Prelude.{
  ℕ, Bool, true, false, Option, none, some, List, [], ◌∷◌, ◌++◌, Result, ok, err, map, retain,
  is_empty, ltb, if◌then◌else◌,
}
use v6proxy.Text.{Text, codes}
use v6proxy.Addr.{IpAddr}
use v6proxy.Acl.{decide}
use v6proxy.State.Delta.{AclDelta, effective_allow, effective_deny}
use v6proxy.Config.Net.{IpNets, NetError, parse_net, parse_net_list}

abbrev pub builtin_entries : List Text
builtin_entries = map codes (
    "::1/128" ∷ "::/128" ∷ "::/96" ∷ "fe80::/10" ∷ "fc00::/7" ∷ "ff00::/8" ∷ "::ffff:0:0/96"
    ∷ "64:ff9b::/96" ∷ "2002::/16" ∷ "2001:db8::/32" ∷ [])

-- `Iterator::max`
unfoldable pub max_of : List ℕ → Option ℕ
max_of [] = none
max_of (n ∷ rest) = elim (max_of rest) [
  | none ↦ some n
  | some m ↦ if ltb m n then some n else some m
]

module _ (nets : IpNets) where
  pub record EgressFilter : Type 0 where
    pub allow : List nets.Net
    pub deny : List nets.Net

  parse_all : List Text → Option (List nets.Net)
  parse_all [] = some []
  parse_all (e ∷ entries) = elim (nets.parse_cidr e) [
    | none ↦ none
    | some n ↦ elim (parse_all entries) [ none ↦ none | some rest ↦ some (n ∷ rest) ]
  ]

  -- `none` is the panic of `expect("valid builtin CIDR")`.
  unfoldable pub builtin_blocked_nets : Option (List nets.Net)
  unfolding parse_all
  builtin_blocked_nets = parse_all builtin_entries

  -- `iter().filter(contains).map(prefix_len).max()`
  unfoldable pub longest : List nets.Net → IpAddr → Option ℕ
  longest ns ip = max_of (map nets.prefix_len (retain (λ n. nets.contains n ip) ns))

  unfoldable pub is_allowed : EgressFilter → IpAddr → Bool
  is_allowed f ip =
      decide (λ a d. ltb d a) (longest f.allow ip) (longest f.deny ip) (is_empty f.allow)

  unfoldable pub extend_deny :
      List nets.Net → List nets.Net → Option (List nets.Net) → Option (Result NetError EgressFilter)
  extend_deny allow deny none = none
  extend_deny allow deny (some builtins) =
      some (ok (record { allow = allow; deny = deny ++ builtins }))

  -- `none` is a panic.
  unfoldable pub build : List Text → List Text → Option (Result NetError EgressFilter)
  unfolding extend_deny
  build allow deny = elim (parse_net_list nets allow) [
    | err e ↦ some (err e)
    | ok allow_nets ↦ elim (parse_net_list nets deny) [
      | err e ↦ some (err e)
      | ok deny_nets ↦ extend_deny allow_nets deny_nets builtin_blocked_nets
    ]
  ]

  -- One round of `filter_valid_nets`.
  abbrev sort_net : Text → Result NetError nets.Net → List Text × List Text → List Text × List Text
  sort_net e (ok n) (good, bad) = (e ∷ good, bad)
  sort_net e (err x) (good, bad) = (good, e ∷ bad)

  unfoldable pub filter_valid_nets : List Text → List Text × List Text
  filter_valid_nets [] = ([], [])
  filter_valid_nets (e ∷ rest) = sort_net e (parse_net nets e) (filter_valid_nets rest)

  -- `unwrap_or_default`; a panic stays one.
  abbrev filter_or_default : Option (Result NetError EgressFilter) → Option EgressFilter
  filter_or_default none = none
  filter_or_default (some (ok f)) = some f
  filter_or_default (some (err e)) = some (record { allow = []; deny = [] })

  abbrev pub with_bad : List Text → Option EgressFilter → Option (EgressFilter × List Text)
  with_bad bad none = none
  with_bad bad (some f) = some (f, bad)

  unfoldable pub build_egress_filter :
      List Text → List Text → AclDelta → Option (EgressFilter × List Text)
  build_egress_filter base_allow base_deny delta =
      let (allow, bad) = filter_valid_nets (effective_allow delta base_allow) in
      let (deny, bad_deny) = filter_valid_nets (effective_deny delta base_deny) in
      with_bad (bad ++ bad_deny) (filter_or_default (build allow deny))
