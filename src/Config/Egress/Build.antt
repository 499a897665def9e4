-- ===== src/Config/Egress/Build.antt =====
-- Building the egress filter never falls back to the default filter.
use v6proxy.Prelude.{
  ◌≡◌, refl, List, [], ◌∷◌, ◌++◌, some, Result, ok, err, arith, Result-cases, inl, inr,
}
use v6proxy.Text.{Text}
use v6proxy.State.Delta.{AclDelta, effective_allow, effective_deny}
use v6proxy.Config.Net.{IpNets, NetError, parse_net, parse_net_list}
use v6proxy.Config.Egress.{
  build, extend_deny, filter_valid_nets, build_egress_filter, builtin_blocked_nets,
}

module _ (nets : IpNets) where
  -- The networks of the entries that parse, in order.
  keep_net : Result NetError nets.Net → List nets.Net → List nets.Net
  keep_net (ok n) ns = n ∷ ns
  keep_net (err e) ns = ns

  unfoldable pub valid_nets : List Text → List nets.Net
  unfolding keep_net
  valid_nets [] = []
  valid_nets (e ∷ rest) = keep_net (parse_net nets e) (valid_nets rest)

  -- The entries that do not parse, in order.
  keep_entry : Text → Result NetError nets.Net → List Text → List Text
  keep_entry e (ok n) bad = bad
  keep_entry e (err x) bad = e ∷ bad

  unfoldable pub invalid_nets : List Text → List Text
  unfolding keep_entry
  invalid_nets [] = []
  invalid_nets (e ∷ rest) = keep_entry e (parse_net nets e) (invalid_nets rest)

  parse_net_list-filter_valid_nets :
      (entries : List Text)
      → parse_net_list nets (filter_valid_nets nets entries).0 ≡ ok (valid_nets entries)
  unfolding parse_net_list filter_valid_nets valid_nets
  parse_net_list-filter_valid_nets [] = refl
  parse_net_list-filter_valid_nets (e ∷ rest) = elim (Result-cases (parse_net nets e)) [
    | inl (x, failed) ↦ ground (arith, parse_net_list-filter_valid_nets rest)
    | inr (n, parsed) ↦ ground (arith, parse_net_list-filter_valid_nets rest)
  ]

  filter_valid_nets-bad :
      (entries : List Text) → (filter_valid_nets nets entries).1 ≡ invalid_nets entries
  unfolding filter_valid_nets invalid_nets
  filter_valid_nets-bad [] = refl
  filter_valid_nets-bad (e ∷ rest) = elim (Result-cases (parse_net nets e)) [
    | inl (x, failed) ↦ ground (arith, filter_valid_nets-bad rest)
    | inr (n, parsed) ↦ ground (arith, filter_valid_nets-bad rest)
  ]

  -- When the built-in ranges parse, the built filter holds exactly the effective entries that parse
  -- and, among the denied, the built-in ranges; the refused entries are all reported.
  pub build_egress_filter_lem :
      (builtins : List nets.Net)
      → builtin_blocked_nets nets ≡ some builtins
      → (base_allow base_deny : List Text) (delta : AclDelta)
      → build_egress_filter nets base_allow base_deny delta
        ≡ some (
          record {
            allow = valid_nets (effective_allow delta base_allow);
            deny = valid_nets (effective_deny delta base_deny) ++ builtins;
          },
          invalid_nets (effective_allow delta base_allow)
              ++ invalid_nets (effective_deny delta base_deny),
        )
  unfolding build_egress_filter build extend_deny
  build_egress_filter_lem builtins e base_allow base_deny delta = rw (
    build_egress_filter,
    build,
    parse_net_list-filter_valid_nets (effective_allow delta base_allow),
    parse_net_list-filter_valid_nets (effective_deny delta base_deny),
    e,
    filter_valid_nets-bad (effective_allow delta base_allow),
    filter_valid_nets-bad (effective_deny delta base_deny),
  )
