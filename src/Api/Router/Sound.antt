-- ===== src/Api/Router/Sound.antt =====
-- Every run of requests keeps the compiled filters and the state file those of the served policies.
use v6proxy.Prelude.{◌≡◌, refl, inl, inr, Option, some, List, [], ◌∷◌}
use v6proxy.Text.{Text}
use v6proxy.State.Save.{Policies}
use v6proxy.Config.Net.{IpNets}
use v6proxy.Config.Egress.{builtin_blocked_nets}
use v6proxy.Dataplane.Forward.{Counters}
use v6proxy.Api.Proxy.{Proxy}
use v6proxy.Api.Acl
use v6proxy.Api.Acl.{
  AclKind, AclList, AclOp, canonicalize_batch, mutate_acl, domain_kind, egress_kind, finish_mutate,
  answer, edit_all,
}
use v6proxy.Api.Bindings.{Env}
use v6proxy.Api.Auth.{Argon2, Request, Tokens}
use v6proxy.Api.Acl.Fresh.{IsFresh}
use v6proxy.Api.Router.Laws.{router-Admits}
use v6proxy.Api.Router.{
  BindingsRoute, list_route, get_route, put_route, delete_route, patch_route, reseed_route,
  AclRoute, domains_route, egress_route, post_domains_allow_route, delete_domains_allow_route,
  post_domains_deny_route, delete_domains_deny_route, post_egress_allow_route,
  delete_egress_allow_route, post_egress_deny_route, delete_egress_deny_route, Endpoint,
  healthz_endpoint, metrics_endpoint, bindings_endpoint, acl_endpoint, bindings_router, acl_router,
  handle, router, after_request, serve,
}
use v6proxy.Api.Bindings.Sound.{
  IsSound, put_binding-IsSound, delete_binding-IsSound, patch_hash_policy-IsSound, reseed-IsSound,
}
use v6proxy.Api.Acl.Sound.{mutate_domain-IsSound, mutate_egress-IsSound}

module _ (nets : IpNets) (serialize : Policies → Option Text) (origin : Proxy nets) where
  module _ (env : Env) (s : Proxy nets) (sound : IsSound nets serialize origin s) where
    bindings_router-IsSound :
        (r : BindingsRoute)
        → IsSound nets serialize origin (bindings_router nets serialize env r s).1
    unfolding bindings_router
    bindings_router-IsSound list_route = sound
    bindings_router-IsSound (get_route srcip) = sound
    bindings_router-IsSound (put_route srcip body) =
        put_binding-IsSound nets serialize origin env s sound srcip body
    bindings_router-IsSound (delete_route srcip) =
        delete_binding-IsSound nets serialize origin env s sound srcip
    bindings_router-IsSound (patch_route srcip policy) =
        patch_hash_policy-IsSound nets serialize origin env s sound srcip policy
    bindings_router-IsSound (reseed_route srcip) =
        reseed-IsSound nets serialize origin env s sound srcip

    module _ (builtins : List nets.Net) (parsed : builtin_blocked_nets nets ≡ some builtins) where
      acl_router-IsSound :
          (r : AclRoute) → IsSound nets serialize origin (acl_router nets serialize env r s).1
      unfolding acl_router Acl.post_domains_allow Acl.delete_domains_allow Acl.post_domains_deny
          Acl.delete_domains_deny Acl.post_egress_allow Acl.delete_egress_allow Acl.post_egress_deny
          Acl.delete_egress_deny
      acl_router-IsSound domains_route = sound
      acl_router-IsSound egress_route = sound
      acl_router-IsSound (post_domains_allow_route rules) =
          mutate_domain-IsSound nets serialize origin env s sound _ _ rules
      acl_router-IsSound (delete_domains_allow_route rules) =
          mutate_domain-IsSound nets serialize origin env s sound _ _ rules
      acl_router-IsSound (post_domains_deny_route rules) =
          mutate_domain-IsSound nets serialize origin env s sound _ _ rules
      acl_router-IsSound (delete_domains_deny_route rules) =
          mutate_domain-IsSound nets serialize origin env s sound _ _ rules
      acl_router-IsSound (post_egress_allow_route rules) =
          mutate_egress-IsSound nets serialize origin env s sound builtins parsed _ _ rules
      acl_router-IsSound (delete_egress_allow_route rules) =
          mutate_egress-IsSound nets serialize origin env s sound builtins parsed _ _ rules
      acl_router-IsSound (post_egress_deny_route rules) =
          mutate_egress-IsSound nets serialize origin env s sound builtins parsed _ _ rules
      acl_router-IsSound (delete_egress_deny_route rules) =
          mutate_egress-IsSound nets serialize origin env s sound builtins parsed _ _ rules

      handle-IsSound :
          (k : Counters) (endpoint : Endpoint)
          → IsSound nets serialize origin (handle nets serialize env k s endpoint).1
      unfolding handle
      handle-IsSound k healthz_endpoint = sound
      handle-IsSound k metrics_endpoint = sound
      handle-IsSound k (bindings_endpoint r) = bindings_router-IsSound r
      handle-IsSound k (acl_endpoint r) = acl_router-IsSound r

  module _ (argon : Argon2) (tokens : Tokens nets) (builtins : List nets.Net)
      (parsed : builtin_blocked_nets nets ≡ some builtins) where
    after_request-IsSound :
        (env : Env) (k : Counters) (request : Request Endpoint) (s : Proxy nets)
        → IsSound nets serialize origin s
        → IsSound nets serialize origin (
            after_request nets serialize argon tokens s
              (router nets serialize argon tokens env k s request))
    unfolding after_request
    after_request-IsSound env k request s sound =
        elim (router-Admits nets serialize argon tokens env k s request) [
          | inl (admitted, e) ↦ rw e (handle-IsSound env s sound builtins parsed k request.rest)
          | inr (refused, (refusal, e)) ↦ rw e sound
        ]

    serve_all-IsSound :
        (requests : List (Env × Counters × Request Endpoint)) (s : Proxy nets)
        → IsSound nets serialize origin s
        → IsSound nets serialize origin (serve nets serialize argon tokens requests s)
    unfolding serve
    serve_all-IsSound [] s sound = sound
    serve_all-IsSound ((env, k, request) ∷ rest) s sound =
        serve_all-IsSound rest _ (after_request-IsSound env k request s sound)

-- Over any run of requests to the admin API, admitted or refused, each run alone, whatever their
-- saves meet, when the built-in ranges parse: if at first the compiled filters are those of the
-- config lists and the served overlays, they are at the end; if at first the state file holds the
-- served policies too, it does at the end; and the config lists stay as they are.
pub serve-IsSound :
    (nets : IpNets) (serialize : Policies → Option Text) (argon : Argon2) (tokens : Tokens nets)
    (builtins : List nets.Net)
    → builtin_blocked_nets nets ≡ some builtins
    → (requests : List (Env × Counters × Request Endpoint)) (s : Proxy nets) → IsFresh nets s
    → IsSound nets serialize s (serve nets serialize argon tokens requests s)
serve-IsSound nets serialize argon tokens builtins parsed requests s fresh =
    serve_all-IsSound nets serialize s argon tokens builtins parsed requests s
      (record { fresh = fresh; persisted = λ held. held; domain_base = refl; egress_base = refl })
