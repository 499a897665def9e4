-- ===== src/Api/Acl/Sound.antt =====
-- Edits of the ACLs keep the compiled filters and the state file those of the served policies.
use v6proxy.Prelude.{
  ◌≡◌, refl, ◌∙◌, inl, inr, Option, some, List, Result, ok, err, Option-cases, Result-cases,
}
use v6proxy.Text.{Text}
use v6proxy.State.Save.{Policies, Store, SaveError, apply_and_save}
use v6proxy.State.Save.Laws.{IsPersisted, apply_and_save-IsPersisted}
use v6proxy.Config.Net.{IpNets}
use v6proxy.Config.Egress.{builtin_blocked_nets, build_egress_filter}
use v6proxy.Api.Proxy.{Proxy, rebuild_egress_filter, rebuild_domain_filter}
use v6proxy.Api.Acl.{
  AclKind, AclList, AclOp, canonicalize_batch, mutate_acl, domain_kind, egress_kind, finish_mutate,
  answer, edit_all,
}
use v6proxy.Api.Acl.Fresh.{mutate_domain-IsFresh, mutate_egress-IsFresh}
use v6proxy.Api.Bindings.{Env}
use v6proxy.Api.Bindings.Sound.{IsSound}

module _ (nets : IpNets) (serialize : Policies → Option Text) where
  -- Two states with the same config lists.
  record SameLists (s s' : Proxy nets) : Type 0 where
    domain_base : s'.domain_base ≡ s.domain_base
    egress_base : s'.egress_base ≡ s.egress_base

  -- What an edit's answer leaves as the store is what the save left, and the lists are as before.
  abbrev KeepsStore : AclKind nets serialize → Type 0
  KeepsStore kind =
      (s : Proxy nets)
      → ((answer nets serialize kind s (kind.rebuild s)).1.store ≡ s.store)
        × SameLists s (answer nets serialize kind s (kind.rebuild s)).1

  same : (s : Proxy nets) → SameLists s s
  same s = record { domain_base = refl; egress_base = refl }

  domain_kind-KeepsStore : KeepsStore (domain_kind nets serialize)
  unfolding rebuild_domain_filter
  domain_kind-KeepsStore s = (refl, record { domain_base = refl; egress_base = refl })

  egress_kind-KeepsStore : KeepsStore (egress_kind nets serialize)
  unfolding rebuild_egress_filter
  egress_kind-KeepsStore s =
      elim (Option-cases
        (build_egress_filter nets s.egress_base.0 s.egress_base.1 s.store.policies.egress_acl)) [
          | inl f ↦ rw (rebuild_egress_filter, f) (refl, same s)
          | inr ((filter, bad), f) ↦
              rw (rebuild_egress_filter, f)
                (refl, record { domain_base = refl; egress_base = refl })
        ]

  module _ (kind : AclKind nets serialize) (keeps : KeepsStore kind) (s : Proxy nets) where
    finish_mutate-IsPersisted :
        (r : Result SaveError Policies) (store : Store)
        → IsPersisted serialize store
        → IsPersisted serialize (finish_mutate nets serialize kind s (r, store)).1.store
    finish_mutate-IsPersisted (ok p) store h = rw (keeps (record s { store = store })).0 h
    finish_mutate-IsPersisted (err e) store h = h

    mutate_acl-IsPersisted :
        (env : Env) (list : AclList) (op : AclOp) (rules : List Text)
        → IsPersisted serialize s.store
        → IsPersisted serialize (mutate_acl nets serialize env list op rules kind s).1.store
    unfolding mutate_acl
    mutate_acl-IsPersisted env list op rules h =
        elim (Result-cases (canonicalize_batch kind.canonicalize rules)) [
          | inl (r, e) ↦ rw (mutate_acl, e) h
          | inr (canon, e) ↦
              let saved =
                apply_and_save serialize env.io env.saved_at
                  (kind.update (edit_all list op (kind.base s) canon)) s.store in
              rw (mutate_acl, e)
                (finish_mutate-IsPersisted saved.0 saved.1 (
                  apply_and_save-IsPersisted serialize env.io env.saved_at
                    (kind.update (edit_all list op (kind.base s) canon)) s.store h))
        ]

    finish_mutate-SameLists :
        (r : Result SaveError Policies) (store : Store)
        → SameLists s (finish_mutate nets serialize kind s (r, store)).1
    finish_mutate-SameLists (ok p) store =
        let kept = (keeps (record s { store = store })).1 in
        record { domain_base = kept.domain_base; egress_base = kept.egress_base }
    finish_mutate-SameLists (err e) store = record { domain_base = refl; egress_base = refl }

    mutate_acl-SameLists :
        (env : Env) (list : AclList) (op : AclOp) (rules : List Text)
        → SameLists s (mutate_acl nets serialize env list op rules kind s).1
    unfolding mutate_acl
    mutate_acl-SameLists env list op rules =
        elim (Result-cases (canonicalize_batch kind.canonicalize rules)) [
          | inl (r, e) ↦ rw (mutate_acl, e) (same s)
          | inr (canon, e) ↦
              let saved =
                apply_and_save serialize env.io env.saved_at
                  (kind.update (edit_all list op (kind.base s) canon)) s.store in
              rw (mutate_acl, e) (finish_mutate-SameLists saved.0 saved.1)
        ]

  module _ (origin : Proxy nets) (env : Env) (s : Proxy nets)
      (sound : IsSound nets serialize origin s) where
    pub mutate_domain-IsSound :
        (list : AclList) (op : AclOp) (rules : List Text)
        → IsSound nets serialize origin
            (mutate_acl nets serialize env list op rules (domain_kind nets serialize) s).1
    mutate_domain-IsSound list op rules =
        let kept =
          mutate_acl-SameLists (domain_kind nets serialize) domain_kind-KeepsStore s env list op
            rules in
        record {
          domain_base = kept.domain_base ∙ sound.domain_base;
          egress_base = kept.egress_base ∙ sound.egress_base;
          fresh = mutate_domain-IsFresh nets serialize env list op rules s sound.fresh;
          persisted = λ held.
              mutate_acl-IsPersisted (domain_kind nets serialize) domain_kind-KeepsStore s env list
                op rules (sound.persisted held);
        }

    module _ (builtins : List nets.Net) (parsed : builtin_blocked_nets nets ≡ some builtins) where
      pub mutate_egress-IsSound :
          (list : AclList) (op : AclOp) (rules : List Text)
          → IsSound nets serialize origin
              (mutate_acl nets serialize env list op rules (egress_kind nets serialize) s).1
      mutate_egress-IsSound list op rules =
          let kept =
            mutate_acl-SameLists (egress_kind nets serialize) egress_kind-KeepsStore s env list op
              rules in
          record {
            domain_base = kept.domain_base ∙ sound.domain_base;
            egress_base = kept.egress_base ∙ sound.egress_base;
            fresh =
                mutate_egress-IsFresh nets serialize env list op rules s builtins parsed
                  sound.fresh;
            persisted = λ held.
                mutate_acl-IsPersisted (egress_kind nets serialize) egress_kind-KeepsStore s env
                  list op rules (sound.persisted held);
          }
