-- ===== src/Api/Acl/Fresh.antt =====
-- The compiled filters stay those of the config base and the overlays, and a refused batch changes
-- nothing.
use v6proxy.Prelude.{
  ℕ, ◌≡◌, refl, Option, some, List, [], ◌∷◌, ◌++◌, Result, ok, err, Result-cases, inl, inr,
}
use v6proxy.Text.{Text}
use v6proxy.State.Delta.{AclDelta}
use v6proxy.State.Save.{Policies, Store, SaveError, apply_and_save}
use v6proxy.State.Save.Laws.{Committed, apply_and_save_commits}
use v6proxy.Acl.Rule.{canonicalize_rule}
use v6proxy.Acl.Filter.{build_domain_filter}
use v6proxy.Config.Net.{IpNets, canonicalize_net}
use v6proxy.Config.Egress.{build_egress_filter, builtin_blocked_nets}
use v6proxy.Config.Egress.Build.{build_egress_filter_lem}
use v6proxy.Api.Proxy.{Proxy, rebuild_domain_filter, rebuild_egress_filter}
use v6proxy.Api.Bindings.{Env}
use v6proxy.Api.Acl.{
  AclKind, AclList, AclOp, invalid_rule, domain_kind, egress_kind, mutate_acl, edit_all,
  canonicalize_batch, finish_mutate, answer,
}

canonicalize_batch_refuses :
    {E : Type 0} (canonicalize : Text → Result E Text) (before after : List Text) (bad : Text)
    (e : E)
    → canonicalize bad ≡ err e
    → (named : Text) × (canonicalize_batch canonicalize (before ++ bad ∷ after) ≡ err named)
unfolding canonicalize_batch
canonicalize_batch_refuses canonicalize [] after bad e failed = (bad, rw failed refl)
canonicalize_batch_refuses canonicalize (r ∷ before) after bad e failed =
    let (named, refused) = canonicalize_batch_refuses canonicalize before after bad e failed in
    elim (Result-cases (canonicalize r)) [
      | inl (x, h) ↦ (r, rw h refl)
      | inr (c, h) ↦ (named, rw (h, refused) refl)
    ]

module _ (nets : IpNets) where
  -- Both compiled filters are those of the config lists and the overlays that are served.
  pub record IsFresh (s : Proxy nets) : Type 0 where
    pub domain_fresh :
        s.domain_filter
        ≡ (build_domain_filter s.domain_base.0 s.domain_base.1 s.store.policies.domain_acl).0
    pub refused : List Text
    pub egress_fresh :
        build_egress_filter nets s.egress_base.0 s.egress_base.1 s.store.policies.egress_acl
        ≡ some (s.egress_filter, refused)

module _ (nets : IpNets) (serialize : Policies → Option Text) (now : ℕ) (s : Proxy nets) where
  -- Writing back a failed save's store keeps the filters fresh.
  pub keep_store :
      (store : Store)
      → IsFresh nets s
      → store.policies ≡ s.store.policies
      → IsFresh nets (record s { store = store })
  keep_store store fresh e = record {
    domain_fresh = rw e fresh.domain_fresh;
    refused = fresh.refused;
    egress_fresh = rw e fresh.egress_fresh;
  }

  module _ (f : AclDelta → AclDelta) where
    finish_domain :
        (r : Result SaveError Policies) (store : Store)
        → IsFresh nets s
        → Committed serialize now (λ p. record p { domain_acl = f p.domain_acl }) s.store r store
        → IsFresh nets (finish_mutate nets serialize (domain_kind nets serialize) s (r, store)).1
    unfolding rebuild_domain_filter
    finish_domain (err e) store fresh (kept, file) = keep_store store fresh kept
    finish_domain (ok p) store fresh (served, file, next) = record {
      domain_fresh = refl;
      refused = fresh.refused;
      egress_fresh = rw (served, next) fresh.egress_fresh;
    }

    rebuilt_egress :
        (builtins : List nets.Net)
        → builtin_blocked_nets nets ≡ some builtins
        → (s' : Proxy nets)
        → s'.domain_filter
          ≡ (build_domain_filter s'.domain_base.0 s'.domain_base.1 s'.store.policies.domain_acl).0
        → IsFresh nets
            (answer nets serialize
              (egress_kind nets serialize)
              s'
              (rebuild_egress_filter nets s')).1
    unfolding rebuild_egress_filter
    rebuilt_egress builtins parsed s' domain_fresh =
        let built =
          build_egress_filter_lem nets builtins parsed s'.egress_base.0 s'.egress_base.1
            s'.store.policies.egress_acl in
        rw (rebuild_egress_filter, built)
          (record { domain_fresh = domain_fresh; refused = _; egress_fresh = built })

    finish_egress :
        (builtins : List nets.Net)
        → builtin_blocked_nets nets ≡ some builtins
        → (r : Result SaveError Policies) (store : Store) → IsFresh nets s
        → Committed serialize now (λ p. record p { egress_acl = f p.egress_acl }) s.store r store
        → IsFresh nets (finish_mutate nets serialize (egress_kind nets serialize) s (r, store)).1
    finish_egress builtins parsed (err e) store fresh (kept, file) = keep_store store fresh kept
    finish_egress builtins parsed (ok p) store fresh (served, file, next) =
        rebuilt_egress builtins parsed (record s { store = store })
          (rw (served, next) fresh.domain_fresh)

module _ (nets : IpNets) (serialize : Policies → Option Text) (env : Env) (list : AclList)
    (op : AclOp) (rules : List Text) (s : Proxy nets) where
  -- An edit of the domain ACL that runs alone keeps both filters those of the config lists and the
  -- served overlays, whether the batch is refused, the save fails or all succeeds.
  pub mutate_domain-IsFresh :
      IsFresh nets s
      → IsFresh nets (mutate_acl nets serialize env list op rules (domain_kind nets serialize) s).1
  unfolding mutate_acl
  mutate_domain-IsFresh fresh = elim (Result-cases (canonicalize_batch canonicalize_rule rules)) [
    | inl (r, e) ↦ rw (mutate_acl, e) fresh
    | inr (canon, e) ↦
        let edits = edit_all list op s.domain_base canon in
        let saved =
          apply_and_save serialize env.io env.saved_at
            (λ p. record p { domain_acl = edits p.domain_acl }) s.store in
        rw (mutate_acl, e)
          (finish_domain nets serialize env.saved_at s edits saved.0 saved.1 fresh (
            apply_and_save_commits serialize env.io env.saved_at
              (λ p. record p { domain_acl = edits p.domain_acl }) s.store))
  ]

  -- When the built-in ranges parse, an edit of the egress ACL that runs alone keeps both filters
  -- those of the config lists and the served overlays, whether the batch is refused, the save fails
  -- or all succeeds.
  pub mutate_egress-IsFresh :
      (builtins : List nets.Net)
      → builtin_blocked_nets nets ≡ some builtins
      → IsFresh nets s
      → IsFresh nets (mutate_acl nets serialize env list op rules (egress_kind nets serialize) s).1
  unfolding mutate_acl
  mutate_egress-IsFresh builtins parsed fresh =
      elim (Result-cases (canonicalize_batch (canonicalize_net nets) rules)) [
        | inl (r, e) ↦ rw (mutate_acl, e) fresh
        | inr (canon, e) ↦
            let edits = edit_all list op s.egress_base canon in
            let saved =
              apply_and_save serialize env.io env.saved_at
                (λ p. record p { egress_acl = edits p.egress_acl }) s.store in
            rw (mutate_acl, e)
              (finish_egress nets serialize env.saved_at s edits builtins parsed saved.0 saved.1
                fresh
                (apply_and_save_commits serialize env.io env.saved_at
                  (λ p. record p { egress_acl = edits p.egress_acl }) s.store))
      ]

  -- A batch with one rule that does not canonicalise is refused whole: the response names a rule,
  -- and the state is unchanged.
  pub mutate_acl_refuses :
      (kind : AclKind nets serialize) (before after : List Text) (bad : Text) (e : kind.Error)
      → rules ≡ before ++ bad ∷ after
      → kind.canonicalize bad ≡ err e
      → (named : Text) × (mutate_acl nets serialize env list op rules kind s
          ≡ (invalid_rule named, s))
  unfolding mutate_acl
  mutate_acl_refuses kind before after bad e split failed =
      let (named, refused) =
        canonicalize_batch_refuses kind.canonicalize before after bad e failed in
      (named, rw (mutate_acl, split, refused) refl)
