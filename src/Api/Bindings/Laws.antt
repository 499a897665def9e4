-- ===== src/Api/Bindings/Laws.antt =====
-- What the binding handlers do to the served bindings, and when they panic.
use v6proxy.Prelude.{
  ℕ, ◌≡◌, refl, sym, ap, ◌∙◌, true, Option, none, some, Result, ok, err, arith, Option-cases, inl,
  inr, ◌⊎◌, if◌then◌else◌, ◌==◌, ==_refl,
}
use v6proxy.Prelude.Map.{Map, get, insert, remove, get-insert, get-remove}
use v6proxy.Text.{Text}
use v6proxy.Addr.{IpAddr, eq_ip, parse_ip}
use v6proxy.State.Policy.{HashPolicy, Binding, parse_policy, parse_seed}
use v6proxy.State.Save.{Policies, Store, SaveError, apply_and_save}
use v6proxy.State.Save.Laws.{Committed, apply_and_save_commits, next_policies}
use v6proxy.Config.Net.{IpNets}
use v6proxy.Api.Proxy.{Proxy}
use v6proxy.Api.Bindings.{
  status_ok, internal_server_error, binding_body, deleted_body, BindingResponse, Response, reply,
  panicked, refuse, Env, PutBindingRequest, modify, bindings, get_binding, with_response, save_then,
  put_binding, delete_binding, unwrap_binding, update_binding, show_binding, put_parsed, choose,
  failed_to_save,
}

get-modify :
    (m : Map IpAddr Binding) (ip : IpAddr) (f : Binding → Binding) (b : Binding)
    → get m ip ≡ some b
    → get (modify m ip f) ip ≡ some (f b)
unfolding modify
get-modify m ip f b e = rw (modify, e) (ground (arith, get-insert m ip (f b) ip, ==_refl ip))

modify_absent :
    (m : Map IpAddr Binding) (ip : IpAddr) (f : Binding → Binding)
    → get m ip ≡ none
    → get (modify m ip f) ip ≡ none
unfolding modify
modify_absent m ip f e = rw (modify, e) e

module _ (nets : IpNets) (serialize : Policies → Option Text) (env : Env) where
  module _ (mutator : Policies → Policies) (respond : Policies → Response) (s : Proxy nets) where
    -- A save answers from the new policies and serves them, or fails and serves the old.
    abbrev SaveThen : Response × Proxy nets → Type 0
    SaveThen (answer, s') =
        ((answer ≡ respond (next_policies mutator env.saved_at s.store))
          × (s'.store.policies ≡ next_policies mutator env.saved_at s.store))
        ⊎ ((answer ≡ refuse internal_server_error failed_to_save)
            × (s'.store.policies ≡ s.store.policies))

    with_response_cases :
        (r : Result SaveError Policies) (store : Store)
        → Committed serialize env.saved_at mutator s.store r store
        → SaveThen (with_response nets serialize respond s (r, store))
    with_response_cases (ok p) store (served, file, next) = inl (ap respond next, served ∙ next)
    with_response_cases (err e) store (kept, file) = inr (refl, kept)

    save_then_cases : SaveThen (save_then nets serialize env mutator respond s)
    unfolding save_then
    save_then_cases =
        with_response_cases (apply_and_save serialize env.io env.saved_at mutator s.store).0
          (apply_and_save serialize env.io env.saved_at mutator s.store).1
          (apply_and_save_commits serialize env.io env.saved_at mutator s.store)

  module _ (between : Proxy nets → Proxy nets) (s : Proxy nets) where
    get-put_parsed :
        (ip : IpAddr) (policy : Option HashPolicy) (seed : Option ℕ) (row : BindingResponse)
        → (put_parsed nets serialize env between ip policy seed s).0
          ≡ reply status_ok (binding_body row)
        → (get
              (bindings nets serialize (put_parsed nets serialize env between ip policy seed s).1)
              ip
            ≡ some row.binding)
          × (reply status_ok (binding_body row)
              ≡ reply status_ok
                  (binding_body (record { srcip = ip; binding = row.binding; exists = true })))
    unfolding put_parsed bindings
    get-put_parsed ip none seed row h = absurd (ground (arith, h))
    get-put_parsed ip (some policy) none row h = absurd (ground (arith, h))
    get-put_parsed ip (some policy) (some seed) row h =
        let b : Binding = record { policy = policy; seed = seed; updated_at = env.now } in
        elim (save_then_cases (λ p. record p { bindings = insert p.bindings ip b })
          (λ p. reply status_ok (binding_body (record { srcip = ip; binding = b; exists = true })))
          (between s)) [
            | inl (answered, served) ↦ ground (
              arith,
              h,
              answered,
              ap (λ p. get p.bindings ip) served,
              get-insert (between s).store.policies.bindings ip b ip,
              ==_refl ip,
            )
            | inr (answered, kept) ↦ absurd (ground (arith, h, answered))
          ]

    put_binding-at :
        (srcip : Text) (body : PutBindingRequest) (ip : IpAddr)
        → parse_ip srcip ≡ some ip
        → put_binding nets serialize env between srcip body s
          ≡ put_parsed nets serialize env between ip
              (choose parse_policy
                (λ b. b.policy)
                s.default_hash_policy
                (get (bindings nets serialize s) ip)
                body.policy)
              (choose parse_seed
                (λ b. b.seed)
                s.default_binding_seed
                (get (bindings nets serialize s) ip)
                body.seed)
              s
    unfolding put_binding
    put_binding-at srcip body ip e = rw (put_binding, e) refl

    -- When a PUT is answered with a binding, whatever other requests did before its save, a GET of
    -- the same address gives the same answer.
    pub get_binding-put_binding :
        (env' : Env) (srcip : Text) (body : PutBindingRequest) (row : BindingResponse)
        → (put_binding nets serialize env between srcip body s).0
          ≡ reply status_ok (binding_body row)
        → get_binding nets serialize env' srcip
            (put_binding nets serialize env between srcip body s).1
          ≡ reply status_ok (binding_body row)
    unfolding get_binding put_binding show_binding bindings
    get_binding-put_binding env' srcip body row h = elim (Option-cases (parse_ip srcip)) [
      | inl e ↦ ground (arith, h)
      | inr (ip, e) ↦
          let at = put_binding-at srcip body ip e in
          let (got, same) =
            get-put_parsed ip
              (choose parse_policy (λ b. b.policy) s.default_hash_policy
                (get (bindings nets serialize s) ip) body.policy)
              (choose parse_seed (λ b. b.seed) s.default_binding_seed
                (get (bindings nets serialize s) ip) body.seed)
              row (ap (λ r. r.0) (sym at) ∙ h) in
          rw (get_binding, e, at, got) (sym same)
    ]

    -- A DELETE of an address that is bound when the request is checked: either it answers so, and
    -- from the bindings served just before the save exactly this address is gone, or it answers
    -- that saving failed and those bindings are still served.
    pub delete_binding-get :
        (srcip : Text) (ip : IpAddr) (b : Binding)
        → parse_ip srcip ≡ some ip
        → get s.store.policies.bindings ip ≡ some b
        → (((delete_binding nets serialize env between srcip s).0 ≡ reply status_ok deleted_body)
            × ((j : IpAddr)
                → get
                    (delete_binding nets serialize env between srcip s).1.store.policies.bindings
                    j
                  ≡ (if ip == j then none else get (between s).store.policies.bindings j)))
          ⊎ (((delete_binding nets serialize env between srcip s).0
                ≡ refuse internal_server_error failed_to_save)
              × ((delete_binding nets serialize env between srcip s).1.store.policies
                  ≡ (between s).store.policies))
    unfolding delete_binding bindings
    delete_binding-get srcip ip b e bound =
        rw (delete_binding, e, bound)
          (elim (save_then_cases (λ p. record p { bindings = remove p.bindings ip })
            (λ p. reply status_ok deleted_body) (between s)) [
              | inl (answered, served) ↦ inl (
                answered,
                λ j.
                    ap (λ p. get p.bindings j) served
                    ∙ get-remove (between s).store.policies.bindings ip j,
              )
              | inr (failed, kept) ↦ inr (failed, kept)
            ])

    module _ (ip : IpAddr) (f : Binding → Binding) where
      -- When the address is bound at the check of a PATCH or reseed and still bound when its save
      -- begins, the handler does not panic: it answers with the changed binding, which is then
      -- served, or saving failed and the policies before the save are still served.
      pub update_binding_answers :
          (b b' : Binding)
          → get s.store.policies.bindings ip ≡ some b
          → get (between s).store.policies.bindings ip ≡ some b'
          → (((update_binding nets serialize env between ip f s).0
                ≡ reply status_ok
                    (binding_body (record { srcip = ip; binding = f b'; exists = true })))
              × (get (update_binding nets serialize env between ip f s).1.store.policies.bindings ip
                  ≡ some (f b')))
            ⊎ (((update_binding nets serialize env between ip f s).0
                  ≡ refuse internal_server_error failed_to_save)
                × ((update_binding nets serialize env between ip f s).1.store.policies
                    ≡ (between s).store.policies))
      unfolding update_binding bindings
      update_binding_answers b b' bound still =
          rw bound
            (elim (save_then_cases (λ p. record p { bindings = modify p.bindings ip f })
              (λ p. unwrap_binding nets serialize ip (get p.bindings ip)) (between s)) [
                | inl (answered, served) ↦
                    let found = get-modify (between s).store.policies.bindings ip f b' still in
                    inl (
                      answered ∙ ap (unwrap_binding nets serialize ip) found,
                      ap (λ p. get p.bindings ip) served ∙ found,
                    )
                | inr (failed, kept) ↦ inr (failed, kept)
              ])

      -- When the address is bound at the check and another request unbinds it before the save, the
      -- handler panics at its `unwrap`, unless saving failed.
      pub update_binding_panics :
          (b : Binding)
          → get s.store.policies.bindings ip ≡ some b
          → get (between s).store.policies.bindings ip ≡ none
          → ((update_binding nets serialize env between ip f s).0 ≡ panicked)
            ⊎ ((update_binding nets serialize env between ip f s).0
                ≡ refuse internal_server_error failed_to_save)
      unfolding update_binding bindings
      update_binding_panics b bound gone =
          rw bound
            (elim (save_then_cases (λ p. record p { bindings = modify p.bindings ip f })
              (λ p. unwrap_binding nets serialize ip (get p.bindings ip)) (between s)) [
                | inl (answered, served) ↦ inl (
                    answered
                    ∙ ap (unwrap_binding nets serialize ip)
                        (modify_absent (between s).store.policies.bindings ip f gone))
                | inr (failed, kept) ↦ inr failed
              ])
