-- ===== src/Api/Bindings.antt =====
-- The binding handlers of src/api/handlers.rs. Each loads the policies first and takes the write lock
-- in `apply_and_save` later: `between` is what the other requests do in the meantime.
pub mod Laws
pub mod Sound
use v6proxy.Prelude.{
  ℕ, Bool, true, false, Option, none, some, List, [], ◌∷◌, Result, ok, err, map, length,
}
use v6proxy.Prelude.Map.{Map, get, insert, remove}
use v6proxy.Text.{Text}
use v6proxy.Addr.{IpAddr, eq_ip, parse_ip}
use v6proxy.State.Policy.{HashPolicy, Binding, parse_policy, parse_seed}
use v6proxy.State.Save.{Policies, Store, SaveIo, SaveError, apply_and_save}
use v6proxy.Config.Net.{IpNets}
use v6proxy.Api.Proxy.{Proxy}

pub data Status : Type 0 where
  status_ok bad_request not_found internal_server_error : Status

-- `BindingResponse` before its fields are rendered as text.
pub record BindingResponse : Type 0 where
  pub srcip : IpAddr
  pub binding : Binding
  pub exists : Bool

pub data ErrorText : Type 0 where
  invalid_ip_address invalid_policy invalid_seed srcip_not_found failed_to_save : ErrorText

pub data Body : Type 0 where
  binding_body : BindingResponse → Body
  list_body : List BindingResponse → ℕ → Body
  deleted_body : Body
  error_body : ErrorText → Body

-- What a request ends in: a response, or a panic of the handler.
pub data Response : Type 0 where
  reply : Status → Body → Response
  panicked : Response

abbrev pub refuse : Status → ErrorText → Response
refuse st e = reply st (error_body e)

-- What the outside gives to one request: the clock, at the handler and at the save; the outcomes of
-- the save's system calls; the random number.
pub record Env : Type 0 where
  pub now : ℕ
  pub saved_at : ℕ
  pub io : SaveIo
  pub random : ℕ

pub record PutBindingRequest : Type 0 where
  pub policy : Option Text
  pub seed : Option Text

-- `None => existing.map(field).unwrap_or_else(default)`, and the parsed text otherwise.
unfoldable pub choose :
    {A : Type 0} → (Text → Option A) → (Binding → A) → A → Option Binding → Option Text → Option A
choose parse field fallback existing (some text) = parse text
choose parse field fallback none none = some fallback
choose parse field fallback (some b) none = some (field b)

-- `get_mut`, then the assignments
unfoldable pub modify : Map IpAddr Binding → IpAddr → (Binding → Binding) → Map IpAddr Binding
modify m ip f = elim (get m ip) [ none ↦ m | some b ↦ insert m ip (f b) ]

module _ (nets : IpNets) (serialize : Policies → Option Text) where
  unfoldable pub bindings : Proxy nets → Map IpAddr Binding
  bindings s = s.store.policies.bindings

  unfoldable pub list_bindings : Proxy nets → Response
  unfolding bindings
  list_bindings s =
      let rows = map (λ (ip, b). record { srcip = ip; binding = b; exists = true }) (bindings s) in
      reply status_ok (list_body rows (length rows))

  default_binding : Env → Proxy nets → Binding
  default_binding env s = record {
    policy = s.default_hash_policy;
    seed = s.default_binding_seed;
    updated_at = env.now;
  }

  unfoldable pub show_binding : Env → Proxy nets → IpAddr → Option Binding → Response
  unfolding default_binding
  show_binding env s ip (some b) =
      reply status_ok (binding_body (record { srcip = ip; binding = b; exists = true }))
  show_binding env s ip none =
      reply status_ok
        (binding_body (record { srcip = ip; binding = default_binding env s; exists = false }))

  unfoldable pub get_binding : Env → Text → Proxy nets → Response
  unfolding show_binding bindings
  get_binding env srcip s = elim (parse_ip srcip) [
    | none ↦ refuse bad_request invalid_ip_address
    | some ip ↦ show_binding env s ip (get (bindings s) ip)
  ]

  abbrev pub with_response :
      (Policies → Response) → Proxy nets → Result SaveError Policies × Store → Response × Proxy nets
  with_response respond s (ok p, store) = (respond p, record s { store = store })
  with_response respond s (err e, store) =
      (refuse internal_server_error failed_to_save, record s { store = store })

  -- `match apply_and_save(mutator) { Ok(p) => respond(p), Err(_) => "failed to save" }`
  unfoldable pub save_then :
      Env → (Policies → Policies) → (Policies → Response) → Proxy nets → Response × Proxy nets
  save_then env mutator respond s =
      with_response respond s (apply_and_save serialize env.io env.saved_at mutator s.store)

  unfoldable pub put_parsed :
      Env
      → (Proxy nets → Proxy nets)
      → IpAddr
      → Option HashPolicy
      → Option ℕ
      → Proxy nets
      → Response × Proxy nets
  put_parsed env between ip none seed s = (refuse bad_request invalid_policy, s)
  put_parsed env between ip (some policy) none s = (refuse bad_request invalid_seed, s)
  put_parsed env between ip (some policy) (some seed) s =
      let b : Binding = record { policy = policy; seed = seed; updated_at = env.now } in
      save_then env (λ p. record p { bindings = insert p.bindings ip b })
        (λ p. reply status_ok (binding_body (record { srcip = ip; binding = b; exists = true })))
        (between s)

  unfoldable pub put_binding :
      Env
      → (Proxy nets → Proxy nets)
      → Text
      → PutBindingRequest
      → Proxy nets
      → Response × Proxy nets
  unfolding put_parsed choose bindings
  put_binding env between srcip body s = elim (parse_ip srcip) [
    | none ↦ (refuse bad_request invalid_ip_address, s)
    | some ip ↦
        let existing = get (bindings s) ip in
        put_parsed env between ip
          (choose parse_policy (λ b. b.policy) s.default_hash_policy existing body.policy)
          (choose parse_seed (λ b. b.seed) s.default_binding_seed existing body.seed) s
  ]

  -- `if !contains_key { return NOT_FOUND }`
  abbrev pub if_bound :
      {A : Type 0} → Option A → Proxy nets → Response × Proxy nets → Response × Proxy nets
  if_bound none s rest = (refuse not_found srcip_not_found, s)
  if_bound (some b) s rest = rest

  unfoldable pub delete_binding :
      Env → (Proxy nets → Proxy nets) → Text → Proxy nets → Response × Proxy nets
  unfolding bindings
  delete_binding env between srcip s = elim (parse_ip srcip) [
    | none ↦ (refuse bad_request invalid_ip_address, s)
    | some ip ↦ if_bound (get (bindings s) ip) s (
        save_then env (λ p. record p { bindings = remove p.bindings ip })
          (λ p. reply status_ok deleted_body) (between s))
  ]

  -- `new_policies.bindings.get(&ip).unwrap()`
  abbrev pub unwrap_binding : IpAddr → Option Binding → Response
  unwrap_binding ip none = panicked
  unwrap_binding ip (some b) =
      reply status_ok (binding_body (record { srcip = ip; binding = b; exists = true }))

  -- The common course of `patch_hash_policy` and `reseed` from the lookup on.
  unfoldable pub update_binding :
      Env
      → (Proxy nets → Proxy nets)
      → IpAddr
      → (Binding → Binding)
      → Proxy nets
      → Response × Proxy nets
  unfolding bindings
  update_binding env between ip f s = if_bound (get (bindings s) ip) s (
      save_then env (λ p. record p { bindings = modify p.bindings ip f })
        (λ p. unwrap_binding ip (get p.bindings ip)) (between s))

  unfoldable pub patch_hash_policy :
      Env → (Proxy nets → Proxy nets) → Text → Text → Proxy nets → Response × Proxy nets
  patch_hash_policy env between srcip policy s = elim (parse_ip srcip) [
    | none ↦ (refuse bad_request invalid_ip_address, s)
    | some ip ↦ elim (parse_policy policy) [
      | none ↦ (refuse bad_request invalid_policy, s)
      | some hp ↦
          update_binding env between ip (λ b. record b { policy = hp; updated_at = env.now }) s
    ]
  ]

  unfoldable pub reseed :
      Env → (Proxy nets → Proxy nets) → Text → Proxy nets → Response × Proxy nets
  reseed env between srcip s = elim (parse_ip srcip) [
    | none ↦ (refuse bad_request invalid_ip_address, s)
    | some ip ↦
        update_binding env between ip (λ b. record b { seed = env.random; updated_at = env.now }) s
  ]
