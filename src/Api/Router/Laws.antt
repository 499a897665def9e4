-- ===== src/Api/Router/Laws.antt =====
-- Which requests reach a handler, and what stays true of the shared state over any run of requests.
use v6proxy.Prelude.{◌≡◌, refl, ◌∙◌, ◌⊎◌, inl, inr, Option, Result, ok, err}
use v6proxy.State.Save.{Policies}
use v6proxy.Text.{Text}
use v6proxy.Config.Net.{IpNets}
use v6proxy.Dataplane.Forward.{Counters}
use v6proxy.Api.Proxy.{Proxy}
use v6proxy.Api.Bindings.{Env}
use v6proxy.Api.Auth.{Argon2, Refusal, Request, Tokens, token_middleware}
use v6proxy.Api.Auth.Laws.{
  IsListed, IsVerified, ip_allowlist_middleware_cases, token_middleware_cases,
}
use v6proxy.Api.Router.{
  Endpoint, healthz_endpoint, metrics_endpoint, bindings_endpoint, acl_endpoint, Outcome, handle,
  ip_only, authenticated, guard, router,
}

module _ (nets : IpNets) (serialize : Policies → Option Text) (argon : Argon2)
    (tokens : Tokens nets) where
  -- What an endpoint's tier asks of a request.
  abbrev pub Admits : Request Endpoint → Endpoint → Type 0
  Admits request healthz_endpoint = Unit
  Admits request metrics_endpoint = IsListed nets tokens request
  Admits request (bindings_endpoint r) =
      IsListed nets tokens request × IsVerified nets tokens request argon
  Admits request (acl_endpoint r) =
      IsListed nets tokens request × IsVerified nets tokens request argon

  -- A check hands the request on to `answer` and `P` holds of it, or refuses it and `P` does not.
  abbrev pub Gate :
      Type 0
      → Result Refusal (Outcome nets serialize)
      → Result Refusal (Outcome nets serialize)
      → Type 0
  Gate P answer r = (P × (r ≡ answer)) ⊎ (¬ P × ((e : Refusal) × (r ≡ err e)))

  module _ (next : Request Endpoint → Result Refusal (Outcome nets serialize))
      (request : Request Endpoint) where
    ip_only-Gate :
        Gate
          (IsListed nets tokens request)
          (next request)
          (ip_only nets serialize argon tokens next request)
    unfolding ip_only
    ip_only-Gate = elim (ip_allowlist_middleware_cases nets tokens request next) [
      | inl (listed, e) ↦ inl (listed, e)
      | inr (unlisted, e) ↦ inr (unlisted, (_, e))
    ]

    authenticated-Gate :
        Gate
          (IsListed nets tokens request × IsVerified nets tokens request argon)
          (next request)
          (authenticated nets serialize argon tokens next request)
    unfolding authenticated
    authenticated-Gate =
        elim (ip_allowlist_middleware_cases nets tokens request
          (token_middleware nets tokens argon next)) [
            | inr (unlisted, e) ↦ inr ((λ h. unlisted h.0), (_, e))
            | inl (listed, e) ↦ elim (token_middleware_cases nets tokens request next argon) [
              | inl (verified, f) ↦ inl ((listed, verified), e ∙ f)
              | inr (unverified, (refusal, f)) ↦ inr ((λ h. unverified h.1), (refusal, e ∙ f))
            ]
          ]

    guard-Gate :
        (endpoint : Endpoint)
        → Gate
            (Admits request endpoint)
            (next request)
            (guard nets serialize argon tokens endpoint next request)
    unfolding guard
    guard-Gate healthz_endpoint = inl (tt, refl)
    guard-Gate metrics_endpoint = ip_only-Gate
    guard-Gate (bindings_endpoint r) = authenticated-Gate
    guard-Gate (acl_endpoint r) = authenticated-Gate

  -- A request reaches the handler of its endpoint exactly if its tier admits it: always for the
  -- health check, from a listed address for the metrics, from a listed address and with a token
  -- that matches the configured hash for everything else. Otherwise it is refused, and no handler
  -- runs.
  pub router-Admits :
      (env : Env) (k : Counters) (s : Proxy nets) (request : Request Endpoint)
      → (Admits request request.rest
          × (router nets serialize argon tokens env k s request
              ≡ ok (handle nets serialize env k s request.rest)))
        ⊎ (¬ Admits request request.rest
            × ((e : Refusal) × (router nets serialize argon tokens env k s request ≡ err e)))
  unfolding router
  router-Admits env k s request =
      guard-Gate (λ passed. ok (handle nets serialize env k s passed.rest)) request request.rest
