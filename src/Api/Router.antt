-- ===== src/Api/Router.antt =====
-- src/api/mod.rs and the two route tables of src/api/handlers.rs: every endpoint of the admin API
-- behind the checks of its tier. A request stands here for one that axum has matched to its route
-- and whose body it has read.
pub mod Laws
pub mod Sound
use v6proxy.Prelude.{ℕ, Option, List, [], ◌∷◌, Result, ok, err, length, map}
use v6proxy.Text.{Text}
use v6proxy.State.Save.{Policies}
use v6proxy.Config.Net.{IpNets}
use v6proxy.Dataplane.Forward.{Counters}
use v6proxy.Api.Proxy.{Proxy}
use v6proxy.Api.Bindings.{
  Env, PutBindingRequest, Response, list_bindings, get_binding, put_binding, delete_binding,
  patch_hash_policy, reseed,
}
use v6proxy.Api.Acl.{
  AclResponse, get_domains, get_egress, post_domains_allow, delete_domains_allow, post_domains_deny,
  delete_domains_deny, post_egress_allow, delete_egress_allow, post_egress_deny, delete_egress_deny,
}
use v6proxy.Api.Auth.{Argon2, Refusal, Request, Tokens, ip_allowlist_middleware, token_middleware}

-- `bindings_router`: the routes with what the handlers get.
pub data BindingsRoute : Type 0 where
  list_route : BindingsRoute
  get_route : Text → BindingsRoute
  put_route : Text → PutBindingRequest → BindingsRoute
  delete_route : Text → BindingsRoute
  patch_route : Text → Text → BindingsRoute
  reseed_route : Text → BindingsRoute

-- `acl_router`
pub data AclRoute : Type 0 where
  domains_route egress_route : AclRoute
  post_domains_allow_route delete_domains_allow_route : List Text → AclRoute
  post_domains_deny_route delete_domains_deny_route : List Text → AclRoute
  post_egress_allow_route delete_egress_allow_route : List Text → AclRoute
  post_egress_deny_route delete_egress_deny_route : List Text → AclRoute

pub data Endpoint : Type 0 where
  healthz_endpoint metrics_endpoint : Endpoint
  bindings_endpoint : BindingsRoute → Endpoint
  acl_endpoint : AclRoute → Endpoint

-- The figures that the metrics text shows.
pub record Metrics : Type 0 where
  pub bindings_total : ℕ
  pub domain_blocked_total : ℕ
  pub egress_blocked_total : ℕ

pub data Answer : Type 0 where
  healthy : Answer
  metrics_shown : Metrics → Answer
  bindings_answer : Response → Answer
  acl_answer : AclResponse → Answer

module _ (nets : IpNets) (serialize : Policies → Option Text) where
  unfoldable pub metrics_handler : Counters → Proxy nets → Metrics
  metrics_handler k s = record {
    bindings_total = length s.store.policies.bindings;
    domain_blocked_total = k.domain_blocked;
    egress_blocked_total = k.egress_blocked;
  }

  -- A handler's answer, when no other request runs in between.
  unfoldable pub bindings_router : Env → BindingsRoute → Proxy nets → Response × Proxy nets
  bindings_router env list_route s = (list_bindings nets serialize s, s)
  bindings_router env (get_route srcip) s = (get_binding nets serialize env srcip s, s)
  bindings_router env (put_route srcip body) s =
      put_binding nets serialize env (λ t. t) srcip body s
  bindings_router env (delete_route srcip) s = delete_binding nets serialize env (λ t. t) srcip s
  bindings_router env (patch_route srcip policy) s =
      patch_hash_policy nets serialize env (λ t. t) srcip policy s
  bindings_router env (reseed_route srcip) s = reseed nets serialize env (λ t. t) srcip s

  unfoldable pub acl_router : Env → AclRoute → Proxy nets → AclResponse × Proxy nets
  acl_router env domains_route s = (get_domains nets serialize s, s)
  acl_router env egress_route s = (get_egress nets serialize s, s)
  acl_router env (post_domains_allow_route rules) s = post_domains_allow nets serialize env rules s
  acl_router env (delete_domains_allow_route rules) s =
      delete_domains_allow nets serialize env rules s
  acl_router env (post_domains_deny_route rules) s = post_domains_deny nets serialize env rules s
  acl_router env (delete_domains_deny_route rules) s =
      delete_domains_deny nets serialize env rules s
  acl_router env (post_egress_allow_route rules) s = post_egress_allow nets serialize env rules s
  acl_router env (delete_egress_allow_route rules) s =
      delete_egress_allow nets serialize env rules s
  acl_router env (post_egress_deny_route rules) s = post_egress_deny nets serialize env rules s
  acl_router env (delete_egress_deny_route rules) s = delete_egress_deny nets serialize env rules s

  abbrev pub Outcome : Type 0
  Outcome = Answer × Proxy nets

  abbrev pub of_bindings : Response × Proxy nets → Outcome
  of_bindings (r, s) = (bindings_answer r, s)

  abbrev pub of_acl : AclResponse × Proxy nets → Outcome
  of_acl (r, s) = (acl_answer r, s)

  -- The handler of an endpoint, with what the checks let through.
  unfoldable pub handle : Env → Counters → Proxy nets → Endpoint → Outcome
  handle env k s healthz_endpoint = (healthy, s)
  handle env k s metrics_endpoint = (metrics_shown (metrics_handler k s), s)
  handle env k s (bindings_endpoint r) = of_bindings (bindings_router env r s)
  handle env k s (acl_endpoint r) = of_acl (acl_router env r s)

  module _ (argon : Argon2) (tokens : Tokens nets) where
    -- The two tiers that check a request; the third checks nothing.
    unfoldable pub ip_only :
        (Request Endpoint → Result Refusal Outcome) → Request Endpoint → Result Refusal Outcome
    ip_only next request = ip_allowlist_middleware nets tokens next request

    unfoldable pub authenticated :
        (Request Endpoint → Result Refusal Outcome) → Request Endpoint → Result Refusal Outcome
    authenticated next request =
        ip_allowlist_middleware nets tokens (token_middleware nets tokens argon next) request

    unfoldable pub guard :
        Endpoint
        → (Request Endpoint → Result Refusal Outcome)
        → Request Endpoint
        → Result Refusal Outcome
    guard healthz_endpoint next request = next request
    guard metrics_endpoint next request = ip_only next request
    guard (bindings_endpoint r) next request = authenticated next request
    guard (acl_endpoint r) next request = authenticated next request

    unfoldable pub router : Env → Counters → Proxy nets → Request Endpoint → Result Refusal Outcome
    router env k s request = guard request.rest (λ passed. ok (handle env k s passed.rest)) request

    -- The state after a request; a refusal leaves it alone.
    unfoldable pub after_request : Proxy nets → Result Refusal Outcome → Proxy nets
    after_request s (ok (answer, s')) = s'
    after_request s (err e) = s

    -- Requests one after the other, each with what it meets.
    unfoldable pub serve : List (Env × Counters × Request Endpoint) → Proxy nets → Proxy nets
    serve [] s = s
    serve ((env, k, request) ∷ rest) s = serve rest (after_request s (router env k s request))
