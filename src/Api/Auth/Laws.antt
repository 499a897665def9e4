-- ===== src/Api/Auth/Laws.antt =====
-- Which requests pass the checks.
use v6proxy.Prelude.{
  ◌≡◌, refl, ap, subst, ◌⊎◌, inl, inr, Bool, true, false, Option, none, some, List, [], ◌∷◌, ◌++◌,
  Result, ok, err, any, IsAt, here, there, arith, Option-cases, Bool-cases, eq_ℕ,
}
use v6proxy.Text.{Text, codes}
use v6proxy.Text.Laws.{strip_prefix-some, strip_prefix-append}
use v6proxy.Config.Net.{IpNets}
use v6proxy.Api.Auth.{
  of_verdict, Verdict, matches, differs, verify_failed, Argon2, TokenError, verify_token, Request,
  Refusal, forbidden_ip, missing_token, invalid_token, bearer, run_verified, Tokens,
  ip_allowlist_middleware, token_middleware,
}

any-IsAt :
    {A : Type 0} (p : A → Bool) (xs : List A) → any p xs ≡ true → (a : A) × IsAt a xs × (p a ≡ true)
any-IsAt p [] h = absurd (ground (arith, h))
any-IsAt p (x ∷ xs) h = elim (Bool-cases (p x)) [
  | inl e ↦ (x, here, e)
  | inr e ↦ let (a, at, f) = any-IsAt p xs (ground (arith, h, e)) in (a, there at, f)
]

any_of_IsAt :
    {A : Type 0} (p : A → Bool) (xs : List A) (a : A) → IsAt a xs → p a ≡ true → any p xs ≡ true
any_of_IsAt p [] a at h = elim at [ ]
any_of_IsAt p (x ∷ xs) a here h = rw h refl
any_of_IsAt p (x ∷ xs) a (there at) h = ground (arith, any_of_IsAt p xs a at h)

run_verified_cases :
    {B : Type 0} (response : Result Refusal B) (r : Result TokenError Bool)
    → ((r ≡ ok true) × (run_verified response r ≡ response))
      ⊎ (¬ (r ≡ ok true) × (run_verified response r ≡ err invalid_token))
unfolding run_verified
run_verified_cases response (ok true) = inl (refl, refl)
run_verified_cases response (ok false) = inr ((λ e. ground (arith, e)), refl)
run_verified_cases response (err x) = inr ((λ e. ground (arith, e)), refl)

of_verdict-true : (v : Verdict) → of_verdict v ≡ ok true → v ≡ matches
of_verdict-true matches h = refl
of_verdict-true differs h = absurd (ground (arith, h))
of_verdict-true verify_failed h = absurd (ground (arith, h))

verify_token-true :
    (argon : Argon2) (token hash : Text)
    → verify_token argon token hash ≡ ok true
    → (parsed : argon.Hash) × (argon.parse_hash hash ≡ some parsed)
      × (argon.verify_password token parsed ≡ matches)
unfolding verify_token
verify_token-true argon token hash h = elim (Option-cases (argon.parse_hash hash)) [
  | inl e ↦ absurd (ground (arith, h, e))
  | inr (parsed, e) ↦
      (parsed, e, of_verdict-true (argon.verify_password token parsed) (ground (arith, h, e)))
]

module _ (nets : IpNets) {A : Type 0} (tokens : Tokens nets) (request : Request A) where
  -- The peer is in a network of the allowlist.
  pub record IsListed : Type 0 where
    pub net : nets.Net
    pub at : IsAt net tokens.admin_allowlist
    pub inside : nets.contains net request.addr.ip ≡ true

  -- The request carries a bearer token that the configured hash matches.
  pub record IsVerified (argon : Argon2) : Type 0 where
    pub token : Text
    pub header : request.authorization ≡ some (codes "Bearer " ++ token)
    pub hash : argon.Hash
    pub parsed : argon.parse_hash tokens.admin_token_hash ≡ some hash
    pub verified : argon.verify_password token hash ≡ matches

  module _ {B : Type 0} (next : Request A → Result Refusal B) where
    -- The check of the peer hands a request on exactly if it is listed, and refuses it otherwise.
    pub ip_allowlist_middleware_cases :
        (IsListed × (ip_allowlist_middleware nets tokens next request ≡ next request))
        ⊎ (¬ IsListed × (ip_allowlist_middleware nets tokens next request ≡ err forbidden_ip))
    unfolding ip_allowlist_middleware
    ip_allowlist_middleware_cases =
        let inside : nets.Net → Bool = λ net. nets.contains net request.addr.ip in
        elim (Bool-cases (any inside tokens.admin_allowlist)) [
          | inl e ↦
              let (net, at, h) = any-IsAt inside tokens.admin_allowlist e in
              inl (record { net = net; at = at; inside = h }, rw e refl)
          | inr e ↦ inr (
            (λ l. ground (arith, e, any_of_IsAt inside tokens.admin_allowlist l.net l.at l.inside)),
            rw e refl,
          )
        ]

    bearer-some :
        (h : Option Text) (token : Text)
        → bearer h ≡ some token
        → h ≡ some (codes "Bearer " ++ token)
    unfolding bearer
    bearer-some none token e = absurd (ground (arith, e))
    bearer-some (some h) token e = ap (λ t. some t) (strip_prefix-some (codes "Bearer ") h token e)

    module _ (argon : Argon2) where
      bearer_verified : (v : IsVerified argon) → bearer request.authorization ≡ some v.token
      unfolding bearer
      bearer_verified v = rw v.header (strip_prefix-append (codes "Bearer ") v.token)

      verify_verified :
          (v : IsVerified argon) → verify_token argon v.token tokens.admin_token_hash ≡ ok true
      unfolding verify_token
      verify_verified v = rw (verify_token, v.parsed, v.verified) refl

      -- The check of the token hands a request on exactly if it is verified, and refuses it otherwise.
      pub token_middleware_cases :
          (IsVerified argon × (token_middleware nets tokens argon next request ≡ next request))
          ⊎ (¬ IsVerified argon
              × ((e : Refusal) × (token_middleware nets tokens argon next request ≡ err e)))
      unfolding token_middleware
      token_middleware_cases = elim (Option-cases (bearer request.authorization)) [
        | inl e ↦ inr (
          (λ v. ground (arith, e, bearer_verified v)),
          (missing_token, rw (token_middleware, e) refl),
        )
        | inr (token, e) ↦
            elim (run_verified_cases (next request)
              (verify_token argon token tokens.admin_token_hash)) [
                | inl (h, run) ↦
                    let (hash, parsed, verified) =
                      verify_token-true argon token tokens.admin_token_hash h in
                    inl (
                      record {
                        token = token;
                        header = bearer-some request.authorization token e;
                        hash = hash;
                        parsed = parsed;
                        verified = verified;
                      },
                      rw (token_middleware, e) run,
                    )
                | inr (refused, run) ↦ inr (
                  (λ v. refused (
                      subst (λ t. verify_token argon t tokens.admin_token_hash ≡ ok true)
                        (ground (arith, e, bearer_verified v)) (verify_verified v))),
                  (invalid_token, rw (token_middleware, e) run),
                )
              ]
      ]
