-- ===== src/Tests/Admin.antt =====
-- The handlers of src/api/handlers.rs at concrete requests.
use v6proxy.Prelude.{◌≡◌, ◌⊎◌, refl, true, Option, none, some, [], ◌∷◌, if◌then◌else◌, ◌==◌, err}
use v6proxy.Prelude.Map.{Map, get}
use v6proxy.Text.{Text, codes}
use v6proxy.Addr.{IpAddr, v4, eq_ip, parse_ip}
use v6proxy.State.Policy.{HashPolicy, src_ip, five_tuple, Binding}
use v6proxy.State.Delta.{empty_delta}
use v6proxy.State.Save.{Policies, default_policies, SaveIo, written, Store}
use v6proxy.Acl.Filter.{build_domain_filter}
use v6proxy.Acl.Rule.{RuleError, empty_domain, canonicalize_rule}
use v6proxy.Api.Proxy.{Proxy}
use v6proxy.Api.Bindings.{
  status_ok, internal_server_error, binding_body, deleted_body, Response, reply, panicked, refuse,
  failed_to_save, BindingResponse, Env, PutBindingRequest, get_binding, put_binding, delete_binding,
  update_binding,
}
use v6proxy.Api.Bindings.Laws.{
  get_binding-put_binding, delete_binding-get, update_binding_answers, update_binding_panics,
}
use v6proxy.Api.Acl.{deny_list, add_op, invalid_rule, domain_kind, mutate_acl}
use v6proxy.Api.Acl.Fresh.{mutate_acl_refuses}
use v6proxy.Tests.Nets.{v6_nets, builtins}

abbrev serialize : Policies → Option Text
serialize p = some (p.version ∷ p.updated_at ∷ [])

abbrev source : Text
source = codes "203.0.113.20"

abbrev source_ip : IpAddr
source_ip = v4 0xcb007114

abbrev bound : Binding
bound = record { policy = five_tuple; seed = 0x1234; updated_at = 2 }

abbrev quiet : Env
quiet = record {
  now = 10;
  saved_at = 11;
  io = record { write = written; open_ok = true; sync_ok = true; rename_ok = true };
  random = 4;
}

-- A proxy that serves one binding and nothing else.
abbrev with_bindings : Map IpAddr Binding → Proxy v6_nets
with_bindings bindings = record {
  store = record {
    policies = record (default_policies 1) { bindings = bindings };
    disk = record { file = none; tmp = none };
  };
  default_hash_policy = src_ip;
  default_binding_seed = 0;
  domain_base = ([], []);
  egress_base = ([], []);
  domain_filter = (build_domain_filter [] [] empty_delta).0;
  egress_filter = record { allow = []; deny = builtins };
}

abbrev proxy : Proxy v6_nets
proxy = with_bindings ((source_ip, bound) ∷ [])

abbrev alone : Proxy v6_nets → Proxy v6_nets
alone s = s

-- Another request deletes every binding.
abbrev emptied : Proxy v6_nets → Proxy v6_nets
emptied s = with_bindings []

abbrev new_seed : PutBindingRequest
new_seed = record { policy = none; seed = some (codes "77") }

abbrev new_row : BindingResponse
new_row = record {
  srcip = source_ip;
  binding = record { policy = five_tuple; seed = 77; updated_at = 10 };
  exists = true;
}

put_answers :
    (put_binding v6_nets serialize quiet alone source new_seed proxy).0
    ≡ reply status_ok (binding_body new_row)
unfolding put_binding parse_ip v6proxy.Text.Numbers.to_digit get v6proxy.Addr.ip_eq
    v6proxy.State.Policy.parse_seed v6proxy.Text.strip_prefix v6proxy.Text.Numbers.from_str_radix
    v6proxy.Api.Bindings.save_then v6proxy.State.Save.apply_and_save
    v6proxy.State.Save.save_policies
put_answers = refl

parse_source : parse_ip source ≡ some source_ip
unfolding parse_ip v6proxy.Text.Numbers.to_digit
parse_source = refl

source_bound : get proxy.store.policies.bindings source_ip ≡ some bound
unfolding get v6proxy.Addr.ip_eq
source_bound = refl

source_gone : get (emptied proxy).store.policies.bindings source_ip ≡ none
unfolding get
source_gone = refl

get_binding-put_binding_example :
    get_binding v6_nets serialize quiet source
      (put_binding v6_nets serialize quiet alone source new_seed proxy).1
    ≡ reply status_ok (binding_body new_row)
get_binding-put_binding_example =
    get_binding-put_binding v6_nets serialize quiet alone proxy quiet source new_seed new_row
      put_answers

delete_binding-get_example :
    (((delete_binding v6_nets serialize quiet alone source proxy).0 ≡ reply status_ok deleted_body)
      × ((j : IpAddr)
          → get
              (delete_binding v6_nets serialize quiet alone source proxy).1.store.policies.bindings
              j
            ≡ (if source_ip == j then none else get proxy.store.policies.bindings j)))
    ⊎ (((delete_binding v6_nets serialize quiet alone source proxy).0
          ≡ refuse internal_server_error failed_to_save)
        × ((delete_binding v6_nets serialize quiet alone source proxy).1.store.policies
            ≡ proxy.store.policies))
delete_binding-get_example =
    delete_binding-get v6_nets serialize quiet alone proxy source source_ip bound parse_source
      source_bound

abbrev reseeded : Binding → Binding
reseeded b = record b { seed = 4; updated_at = 10 }

update_binding_answers_example :
    (((update_binding v6_nets serialize quiet alone source_ip reseeded proxy).0
        ≡ reply status_ok
            (binding_body (record { srcip = source_ip; binding = reseeded bound; exists = true })))
      × (get
            (update_binding v6_nets serialize quiet alone source_ip reseeded
              proxy).1.store.policies.bindings
            source_ip
          ≡ some (reseeded bound)))
    ⊎ (((update_binding v6_nets serialize quiet alone source_ip reseeded proxy).0
          ≡ refuse internal_server_error failed_to_save)
        × ((update_binding v6_nets serialize quiet alone source_ip reseeded proxy).1.store.policies
            ≡ proxy.store.policies))
update_binding_answers_example =
    update_binding_answers v6_nets serialize quiet alone proxy source_ip reseeded bound bound
      source_bound source_bound

update_binding_panics_example :
    ((update_binding v6_nets serialize quiet emptied source_ip reseeded proxy).0 ≡ panicked)
    ⊎ ((update_binding v6_nets serialize quiet emptied source_ip reseeded proxy).0
        ≡ refuse internal_server_error failed_to_save)
update_binding_panics_example =
    update_binding_panics v6_nets serialize quiet emptied proxy source_ip reseeded bound
      source_bound source_gone

blank_refused : canonicalize_rule [] ≡ err (empty_domain [])
unfolding canonicalize_rule v6proxy.Acl.Rule.parse_rule v6proxy.Text.strip_prefix v6proxy.Text.trim
    v6proxy.Acl.Rule.parse_zone v6proxy.Acl.Rule.normalize v6proxy.Text.to_ascii_lowercase
blank_refused = refl

mutate_acl_refuses_example :
    (named : Text) × (mutate_acl v6_nets serialize quiet deny_list add_op
        (codes "bad.com" ∷ [] ∷ [])
        (domain_kind v6_nets serialize)
        proxy
      ≡ (invalid_rule named, proxy))
mutate_acl_refuses_example =
    mutate_acl_refuses v6_nets serialize quiet deny_list add_op (codes "bad.com" ∷ [] ∷ []) proxy
      (domain_kind v6_nets serialize) (codes "bad.com" ∷ []) [] [] (empty_domain []) refl
      blank_refused
