-- ===== src/Api/Bindings/Sound.antt =====
-- The binding handlers keep the compiled filters and the state file those of the served policies.
use v6proxy.Prelude.{ℕ, ◌≡◌, refl, inl, inr, Option, none, some, Result, ok, err, Option-cases}
use v6proxy.Text.{Text}
use v6proxy.Addr.{IpAddr, parse_ip}
use v6proxy.State.Policy.{HashPolicy, Binding, parse_policy}
use v6proxy.State.Save.{Policies, Store, SaveError, apply_and_save}
use v6proxy.State.Save.Laws.{
  Committed, IsPersisted, apply_and_save_commits, apply_and_save-IsPersisted,
}
use v6proxy.Config.Net.{IpNets}
use v6proxy.Api.Proxy.{Proxy}
use v6proxy.Api.Acl.Fresh.{IsFresh, keep_store}
use v6proxy.Api.Bindings.{
  Env, PutBindingRequest, Response, with_response, save_then, if_bound, put_parsed, update_binding,
  put_binding, delete_binding, patch_hash_policy, reseed,
}

module _ (nets : IpNets) (serialize : Policies → Option Text) (origin : Proxy nets) where
  -- The compiled filters are those of the config lists and the served overlays, the config lists
  -- are those of the state `origin`, and the state file holds the served policies if it did there.
  pub record IsSound (s : Proxy nets) : Type 0 where
    pub fresh : IsFresh nets s
    pub persisted : IsPersisted serialize origin.store → IsPersisted serialize s.store
    pub domain_base : s.domain_base ≡ origin.domain_base
    pub egress_base : s.egress_base ≡ origin.egress_base

  module _ (env : Env) where
    -- A mutator that leaves both overlays alone.
    pub record LeavesAcls (mutator : Policies → Policies) : Type 0 where
      pub domain : (p : Policies) → (mutator p).domain_acl ≡ p.domain_acl
      pub egress : (p : Policies) → (mutator p).egress_acl ≡ p.egress_acl

    committed-IsFresh :
        (mutator : Policies → Policies) (s : Proxy nets) (r : Result SaveError Policies)
        (store : Store)
        → LeavesAcls mutator
        → IsFresh nets s
        → Committed serialize env.saved_at mutator s.store r store
        → IsFresh nets (record s { store = store })
    committed-IsFresh mutator s (err e) store leaves fresh (kept, file) =
        keep_store nets serialize env.saved_at s store fresh kept
    committed-IsFresh mutator s (ok p) store leaves fresh (served, file, next) =
        let policies = s.store.policies in
        record {
          domain_fresh = rw (served, next, leaves.domain policies) fresh.domain_fresh;
          refused = fresh.refused;
          egress_fresh = rw (served, next, leaves.egress policies) fresh.egress_fresh;
        }

    with_response-IsSound :
        (respond : Policies → Response) (s : Proxy nets) (r : Result SaveError Policies)
        (store : Store)
        → IsSound (record s { store = store })
        → IsSound (with_response nets serialize respond s (r, store)).1
    with_response-IsSound respond s (ok p) store sound = sound
    with_response-IsSound respond s (err e) store sound = sound

    save_then-IsSound :
        (mutator : Policies → Policies) (respond : Policies → Response) (s : Proxy nets)
        → LeavesAcls mutator
        → IsSound s
        → IsSound (save_then nets serialize env mutator respond s).1
    unfolding save_then
    save_then-IsSound mutator respond s leaves sound =
        let saved = apply_and_save serialize env.io env.saved_at mutator s.store in
        with_response-IsSound respond s saved.0 saved.1 (record {
          fresh =
              committed-IsFresh mutator s saved.0 saved.1 leaves sound.fresh
                (apply_and_save_commits serialize env.io env.saved_at mutator s.store);
          persisted = λ held.
              apply_and_save-IsPersisted serialize env.io env.saved_at mutator s.store
                (sound.persisted held);
          domain_base = sound.domain_base;
          egress_base = sound.egress_base;
        })

    if_bound-IsSound :
        {A : Type 0} (o : Option A) (s : Proxy nets) (rest : Response × Proxy nets)
        → IsSound s
        → IsSound rest.1
        → IsSound (if_bound nets serialize o s rest).1
    if_bound-IsSound none s rest sound next = sound
    if_bound-IsSound (some b) s rest sound next = next

    module _ (s : Proxy nets) (sound : IsSound s) where
      put_parsed-IsSound :
          (ip : IpAddr) (policy : Option HashPolicy) (seed : Option ℕ)
          → IsSound (put_parsed nets serialize env (λ t. t) ip policy seed s).1
      unfolding put_parsed
      put_parsed-IsSound ip none seed = sound
      put_parsed-IsSound ip (some policy) none = sound
      put_parsed-IsSound ip (some policy) (some seed) =
          save_then-IsSound _ _ s (record { domain = λ p. refl; egress = λ p. refl }) sound

      pub put_binding-IsSound :
          (srcip : Text) (body : PutBindingRequest)
          → IsSound (put_binding nets serialize env (λ t. t) srcip body s).1
      unfolding put_binding
      put_binding-IsSound srcip body = elim (Option-cases (parse_ip srcip)) [
        | inl e ↦ rw (put_binding, e) sound
        | inr (ip, e) ↦ rw (put_binding, e) (put_parsed-IsSound ip _ _)
      ]

      pub delete_binding-IsSound :
          (srcip : Text) → IsSound (delete_binding nets serialize env (λ t. t) srcip s).1
      unfolding delete_binding
      delete_binding-IsSound srcip = elim (Option-cases (parse_ip srcip)) [
        | inl e ↦ rw (delete_binding, e) sound
        | inr (ip, e) ↦
            rw (delete_binding, e)
              (if_bound-IsSound _ s _ sound
                (save_then-IsSound _ _ s (record { domain = λ p. refl; egress = λ p. refl }) sound))
      ]

      update_binding-IsSound :
          (ip : IpAddr) (f : Binding → Binding)
          → IsSound (update_binding nets serialize env (λ t. t) ip f s).1
      unfolding update_binding
      update_binding-IsSound ip f =
          if_bound-IsSound _ s _ sound
            (save_then-IsSound _ _ s (record { domain = λ p. refl; egress = λ p. refl }) sound)

      pub patch_hash_policy-IsSound :
          (srcip policy : Text)
          → IsSound (patch_hash_policy nets serialize env (λ t. t) srcip policy s).1
      unfolding patch_hash_policy
      patch_hash_policy-IsSound srcip policy = elim (Option-cases (parse_ip srcip)) [
        | inl e ↦ rw (patch_hash_policy, e) sound
        | inr (ip, e) ↦ elim (Option-cases (parse_policy policy)) [
          | inl f ↦ rw (patch_hash_policy, e, f) sound
          | inr (hp, f) ↦ rw (patch_hash_policy, e, f) (update_binding-IsSound ip _)
        ]
      ]

      pub reseed-IsSound : (srcip : Text) → IsSound (reseed nets serialize env (λ t. t) srcip s).1
      unfolding reseed
      reseed-IsSound srcip = elim (Option-cases (parse_ip srcip)) [
        | inl e ↦ rw (reseed, e) sound
        | inr (ip, e) ↦ rw (reseed, e) (update_binding-IsSound ip _)
      ]
