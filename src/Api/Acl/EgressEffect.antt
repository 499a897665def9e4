-- ===== src/Api/Acl/EgressEffect.antt =====
-- What the data plane sees of an edit of the egress ACL that has been answered.
use v6proxy.Prelude.{
  ◌≡◌, ◌≢◌, refl, sym, subst, ap, ◌∙◌, true, false, ◌&&◌, ◌||◌, Option, some, List, [], ◌∷◌, ◌++◌,
  Result, ok, err, any, contains, arith, ==_refl, ltb, ◌==◌, IsAt, here, there, Result-cases,
  Bool-cases, inl, inr,
}
use v6proxy.Text.{Text, eq_text, text_eq_iff}
use v6proxy.Addr.{IpAddr}
use v6proxy.State.Delta.{AclDelta, effective_allow, effective_deny, add_deny}
use v6proxy.State.Delta.Edit.{add-effective}
use v6proxy.State.Save.{Policies, Store, SaveError}
use v6proxy.State.Save.Laws.{Committed, apply_and_save_commits}
use v6proxy.Config.Net.{IpNets, parse_net, canonicalize_net}
use v6proxy.Config.Egress.{EgressFilter, is_allowed, builtin_blocked_nets}
use v6proxy.Config.Egress.Build.{valid_nets, build_egress_filter_lem}
use v6proxy.Config.Egress.Permits.{is_allowed-permits, permits_refused}
use v6proxy.Api.Proxy.{Proxy, rebuild_egress_filter}
use v6proxy.Api.Bindings.{Env}
use v6proxy.Api.Acl.{
  acl_not_saved, egress_kind, mutate_acl, edit_all, edit, canonicalize_batch, finish_mutate,
  post_egress_deny,
}

module _ (nets : IpNets) where
  IsAt-append : (n : nets.Net) (ns more : List nets.Net) → IsAt n ns → IsAt n (ns ++ more)
  IsAt-append n [] more at = elim at [ ]
  IsAt-append n (x ∷ ns) more here = here
  IsAt-append n (x ∷ ns) more (there at) = there (IsAt-append n ns more at)

  -- The net of an entry that is written in a list is one of its valid nets.
  valid_nets-IsAt :
      (entries : List Text) (entry : Text) (n : nets.Net)
      → parse_net nets entry ≡ ok n
      → contains entry entries ≡ true
      → IsAt n (valid_nets nets entries)
  unfolding valid_nets
  valid_nets-IsAt [] entry n parsed h = absurd (ground (arith, h))
  valid_nets-IsAt (x ∷ entries) entry n parsed h = elim (Bool-cases (x == entry)) [
    | inl same ↦ let e : x ≡ entry = (text_eq_iff x entry).0 same in rw (valid_nets, e, parsed) here
    | inr other ↦
        let at = valid_nets-IsAt entries entry n parsed (ground (arith, h, other)) in
        elim (Result-cases (parse_net nets x)) [
          | inl (err_x, f) ↦ rw (valid_nets, f) at
          | inr (q, f) ↦ rw (valid_nets, f) (there at)
        ]
  ]

module _ (nets : IpNets) (serialize : Policies → Option Text) (env : Env) (s : Proxy nets)
    (builtins : List nets.Net) (parsed : builtin_blocked_nets nets ≡ some builtins) where
  -- The egress filter that an overlay compiles to over the config base.
  abbrev compiled_filter : AclDelta → EgressFilter nets
  compiled_filter d = record {
    allow = valid_nets nets (effective_allow d s.egress_base.0);
    deny = valid_nets nets (effective_deny d s.egress_base.1) ++ builtins;
  }

  finish_mutate-compiled :
      (f : AclDelta → AclDelta) (r : Result SaveError Policies) (store : Store)
      → Committed serialize env.saved_at
          (λ p. record p { egress_acl = f p.egress_acl })
          s.store
          r
          store
      → (finish_mutate nets serialize (egress_kind nets serialize) s (r, store)).0 ≢ acl_not_saved
      → (finish_mutate nets serialize (egress_kind nets serialize) s (r, store)).1.egress_filter
        ≡ compiled_filter (f s.store.policies.egress_acl)
  unfolding rebuild_egress_filter
  finish_mutate-compiled f (err e) store c saved = absurd (saved refl)
  finish_mutate-compiled f (ok p) store (served, file, next) saved =
      rw
        (
          rebuild_egress_filter,
          build_egress_filter_lem nets builtins parsed s.egress_base.0 s.egress_base.1
              store.policies.egress_acl,
        )
        (ap (λ (q : Policies). compiled_filter q.egress_acl) (served ∙ next))

  post_egress_deny-compiled :
      (entry c : Text)
      → canonicalize_net nets entry ≡ ok c
      → (post_egress_deny nets serialize env (entry ∷ []) s).0 ≢ acl_not_saved
      → (post_egress_deny nets serialize env (entry ∷ []) s).1.egress_filter
        ≡ compiled_filter (add_deny s.store.policies.egress_acl s.egress_base.1 c)
  unfolding post_egress_deny mutate_acl canonicalize_batch edit_all edit
  post_egress_deny-compiled entry c canonical =
      rw (mutate_acl, canonicalize_batch, canonical)
        (finish_mutate-compiled (λ d. add_deny d s.egress_base.1 c) _ _
          (apply_and_save_commits serialize env.io env.saved_at
            (λ p. record p { egress_acl = add_deny p.egress_acl s.egress_base.1 c }) s.store))

  -- After a POST of one deny entry that parses, runs alone and is not answered with a failed save,
  -- when the built-in ranges parse and the crate reads the entry's truncated range back from its
  -- written form: the egress filter refuses every address in that range, unless a valid allow entry
  -- of the config or the overlay that holds the address has a longer prefix.
  pub post_egress_deny_refuses :
      (entry : Text) (n : nets.Net) (ip : IpAddr)
      → parse_net nets entry ≡ ok n
      → parse_net nets (nets.show (nets.trunc n)) ≡ ok (nets.trunc n)
      → nets.contains (nets.trunc n) ip ≡ true
      → any
          (λ a. nets.contains a ip && ltb (nets.prefix_len (nets.trunc n)) (nets.prefix_len a))
          (valid_nets nets (effective_allow s.store.policies.egress_acl s.egress_base.0))
        ≡ false
      → (post_egress_deny nets serialize env (entry ∷ []) s).0 ≢ acl_not_saved
      → is_allowed nets (post_egress_deny nets serialize env (entry ∷ []) s).1.egress_filter ip
        ≡ false
  unfolding canonicalize_net
  post_egress_deny_refuses entry n ip read reread inside no_exception saved =
      let d = s.store.policies.egress_acl in
      let base_allow = s.egress_base.0 in
      let base_deny = s.egress_base.1 in
      let c = nets.show (nets.trunc n) in
      let canonical : canonicalize_net nets entry ≡ ok c = rw (canonicalize_net, read) refl in
      let (kept_allow, kept_deny, now_listed, unchanged) =
        add-effective d base_deny base_allow c c in
      let listed : contains c (effective_deny (add_deny d base_deny c) base_deny) ≡ true =
        now_listed ∙ ap (λ b. b || contains c (effective_deny d base_deny)) (==_refl c) in
      let free =
        subst
          (λ entries.
            any
              (λ a. nets.contains a ip && ltb (nets.prefix_len (nets.trunc n)) (nets.prefix_len a))
              (valid_nets nets entries)
            ≡ false)
          (sym unchanged) no_exception in
      let at = valid_nets-IsAt nets _ c (nets.trunc n) reread listed in
      ap (λ f. is_allowed nets f ip) (post_egress_deny-compiled entry c canonical saved)
      ∙ is_allowed-permits nets ip (compiled_filter (add_deny d base_deny c))
      ∙ permits_refused nets ip (nets.trunc n) [] _ _
          (IsAt-append nets (nets.trunc n) _ builtins at) inside free
