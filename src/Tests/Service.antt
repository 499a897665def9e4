-- ===== src/Tests/Service.antt =====
-- The admin API of src/api and the races of its edits at the concrete proxy.
use v6proxy.Prelude.{
  ◌≡◌, ◌≢◌, ◌⊎◌, ◌&&◌, ◌<◌, any, ltb, length, refl, true, false, some, [], ◌∷◌, ok, err, inl, inr,
  arith,
}
use v6proxy.Text.{Text, codes}
use v6proxy.Addr.{IpAddr, v6}
use v6proxy.State.Delta.{AclDelta, empty_delta, add_deny, effective_allow}
use v6proxy.State.Seed.{str_value, show_seed, visit_seed, visit_seed-show_seed}
use v6proxy.Acl.Rule.{Rule, domain, normalize, parse_rule}
use v6proxy.Acl.Matcher.{spec_gt}
use v6proxy.Acl.Matcher.BestMatch.{rule_matches, specificity}
use v6proxy.Acl.Filter.Build.{valid_rules}
use v6proxy.Config.Net.{parse_net}
use v6proxy.Config.Pool.{V6Pool}
use v6proxy.Config.Egress
use v6proxy.Config.Egress.Build.{valid_nets}
use v6proxy.Acl.Filter.{DomainFilter, is_allowed, build_domain_filter}
use v6proxy.Api.Acl.{AclResponse, acl_shown, acl_not_saved, post_domains_deny, post_egress_deny}
use v6proxy.Api.Acl.Effect.{post_domains_deny_refuses}
use v6proxy.Api.Acl.EgressEffect.{post_egress_deny_refuses}
use v6proxy.Api.Acl.Race.{Editing, current_filter, save, load, store, Reach, begin, next}
use v6proxy.Api.Acl.Race.Laws.{quiet_current}
use v6proxy.Api.Auth.{Refusal}
use v6proxy.Api.Bindings.Sound.{IsSound}
use v6proxy.Api.Router.{handle, router, serve}
use v6proxy.Api.Router.Laws.{Admits, router-Admits}
use v6proxy.Api.Router.Sound.{serve-IsSound}
use v6proxy.Startup.Laws.{start-IsStarted}
use v6proxy.Tests.Nets.{v6_nets, builtins, builtin_ranges_parse}
use v6proxy.Tests.World.{
  serialize, deserialize, plain, config, empty_disk, loaded, started, config_starts, zeros, smooth,
  deny_request, requests,
}

router-Admits_example :
    (Admits v6_nets serialize plain loaded.tokens deny_request deny_request.rest
      × (router v6_nets serialize plain loaded.tokens smooth zeros started deny_request
          ≡ ok (handle v6_nets serialize smooth zeros started deny_request.rest)))
    ⊎ (¬ Admits v6_nets serialize plain loaded.tokens deny_request deny_request.rest
        × ((e : Refusal) × (router v6_nets serialize plain loaded.tokens smooth zeros started
                deny_request
              ≡ err e)))
router-Admits_example =
    router-Admits v6_nets serialize plain loaded.tokens smooth zeros started deny_request

serve-IsSound_example :
    IsSound v6_nets serialize started (serve v6_nets serialize plain loaded.tokens requests started)
serve-IsSound_example =
    serve-IsSound v6_nets serialize plain loaded.tokens builtins builtin_ranges_parse requests
      started
      (start-IsStarted v6_nets deserialize 1 empty_disk config true loaded started
        config_starts).fresh

visit_seed-show_seed_example : visit_seed (str_value (show_seed 0x1234)) ≡ some 0x1234
visit_seed-show_seed_example = visit_seed-show_seed 0x1234 (omega arith)

-- Two requests deny one domain each.
abbrev empty_editing : Editing
empty_editing = record {
  base = ([], []);
  domain_acl = empty_delta;
  domain_filter = (build_domain_filter [] [] empty_delta).0;
  saved = 0;
  built = [];
}

abbrev deny : Text → AclDelta → AclDelta
deny rule d = add_deny d [] rule

abbrev first_saved : Editing
first_saved = record empty_editing {
  domain_acl = deny (codes "domain:a.com") empty_delta;
  saved = 1;
}

abbrev first_done : Editing
first_done = record first_saved { saved = 0; domain_filter = current_filter first_saved }

first_run : Reach false empty_editing first_done
first_run =
    next (next (next begin (save (inr refl) (deny (codes "domain:a.com")))) (load 0 refl))
      (store [] [] (current_filter first_saved) refl)

quiet_current_example : first_done.domain_filter ≡ current_filter first_done
quiet_current_example =
    quiet_current empty_editing first_done refl refl first_run
      (record { none_saved = refl; none_built = refl })

-- When a save overlaps the other request's rebuild, a filter that was built before it can be stored
-- last: then every request has finished, and a domain that the served overlay denies is let pass.
abbrev second_acl : AclDelta
second_acl = deny (codes "domain:b.com") (deny (codes "domain:a.com") empty_delta)

abbrev raced : Editing
raced = record empty_editing { domain_acl = second_acl; domain_filter = current_filter first_saved }

raced_run : Reach true empty_editing raced
raced_run =
    next
      (next
        (next
          (next (next (next begin (save (inl refl) (deny (codes "domain:a.com")))) (load 0 refl))
            (save (inl refl) (deny (codes "domain:b.com"))))
          (load 0 refl))
        (store [] (current_filter first_saved ∷ []) (current_filter raced) refl))
      (store [] [] (current_filter first_saved) refl)

raced_stale :
    (is_allowed raced.domain_filter (codes "b.com") ≡ true)
    × (is_allowed (current_filter raced) (codes "b.com") ≡ false)
unfolding is_allowed v6proxy.Acl.decide v6proxy.Acl.Matcher.best_match build_domain_filter
    v6proxy.Acl.Filter.build v6proxy.Acl.Filter.parse_rules v6proxy.Acl.Filter.filter_valid_rules
    v6proxy.State.Delta.effective_allow v6proxy.State.Delta.merge_acl add_deny
    v6proxy.State.Delta.effective_deny v6proxy.State.Delta.apply_add v6proxy.Acl.Rule.parse_rule
    v6proxy.Text.strip_prefix v6proxy.Text.trim v6proxy.Acl.Rule.parse_zone
    v6proxy.Acl.Rule.normalize v6proxy.Acl.Matcher.add_rule v6proxy.Acl.Matcher.add_rules
    v6proxy.Acl.Matcher.from_rules v6proxy.Acl.Matcher.insert v6proxy.Acl.Matcher.matcher_is_empty
    v6proxy.Acl.Matcher.spec_gt v6proxy.Acl.Matcher.zone_walk v6proxy.Acl.Rule.has_bad_character
    v6proxy.Acl.Rule.parse_keyword v6proxy.Acl.Rule.parse_trimmed v6proxy.Text.count_char
    v6proxy.Text.has_char v6proxy.Text.has_substring v6proxy.Text.is_whitespace
    v6proxy.Text.split_once v6proxy.Text.starts_with v6proxy.Text.text_eq
    v6proxy.Text.to_ascii_lowercase v6proxy.Text.to_lower v6proxy.Text.trim_end_matches
    v6proxy.Text.trim_start_matches
raced_stale = (refl, refl)

-- A domain that a running proxy is told to deny.
abbrev worse : Text
worse = codes "Worse.com"

worse_parses : parse_rule worse ≡ ok (domain (codes "worse.com"))
unfolding parse_rule v6proxy.Text.strip_prefix v6proxy.Text.trim v6proxy.Acl.Rule.parse_zone
    normalize v6proxy.Text.to_ascii_lowercase v6proxy.Acl.Rule.has_bad_character
worse_parses = refl

worse_short : length (normalize (codes "www.worse.com")) < 65535
unfolding normalize v6proxy.Text.to_ascii_lowercase v6proxy.Text.trim_end_matches v6proxy.Text.trim
worse_short = omega arith

worse_matches : rule_matches (domain (codes "worse.com")) (normalize (codes "www.worse.com")) ≡ true
unfolding normalize rule_matches v6proxy.Acl.Matcher.Zones.covers v6proxy.Text.text_eq
    v6proxy.Text.to_ascii_lowercase v6proxy.Text.trim_end_matches v6proxy.Text.trim
worse_matches = refl

nothing_allowed :
    any
      (λ a.
        rule_matches a (normalize (codes "www.worse.com"))
        && spec_gt (specificity a) (specificity (domain (codes "worse.com"))))
      (valid_rules (effective_allow started.store.policies.domain_acl started.domain_base.0))
    ≡ false
unfolding effective_allow valid_rules v6proxy.State.Delta.merge_acl
nothing_allowed = refl

abbrev answer : AclResponse
answer = (post_domains_deny v6_nets serialize smooth (worse ∷ []) started).0

worse_denied :
    answer
    ≡ acl_shown (record {
      allow = record { base = []; add = []; del = []; effective = [] };
      deny = record {
        base = codes "domain:bad.com" ∷ [];
        add = codes "domain:worse.com" ∷ [];
        del = [];
        effective = codes "domain:bad.com" ∷ codes "domain:worse.com" ∷ [];
      };
    })
unfolding post_domains_deny v6proxy.Api.Acl.mutate_acl v6proxy.Api.Acl.canonicalize_batch
    v6proxy.Acl.Rule.canonicalize_rule parse_rule v6proxy.Text.strip_prefix v6proxy.Text.trim
    v6proxy.Acl.Rule.parse_zone normalize v6proxy.Text.to_ascii_lowercase
    v6proxy.Acl.Rule.has_bad_character v6proxy.State.Save.apply_and_save
    v6proxy.State.Save.save_policies v6proxy.Api.Acl.view v6proxy.Api.Acl.acl_view
    v6proxy.Api.Proxy.rebuild_domain_filter effective_allow v6proxy.State.Delta.effective_deny
    v6proxy.Api.Acl.edit_all v6proxy.State.Delta.merge_acl v6proxy.Api.Acl.edit
    v6proxy.Acl.Filter.build build_domain_filter v6proxy.Acl.Filter.filter_valid_rules
    v6proxy.Acl.Filter.parse_rules v6proxy.Acl.Matcher.add_rule v6proxy.Acl.Matcher.add_rules
    v6proxy.Acl.Matcher.from_rules v6proxy.Acl.Matcher.insert v6proxy.Acl.Rule.parse_keyword
    v6proxy.Acl.Rule.parse_trimmed v6proxy.Acl.Rule.render v6proxy.State.Delta.add_allow add_deny
    v6proxy.State.Delta.apply_add v6proxy.State.Delta.apply_del v6proxy.State.Delta.del_allow
    v6proxy.State.Delta.del_deny v6proxy.State.Save.finish_save v6proxy.State.Save.publish
    v6proxy.State.Save.write_tmp v6proxy.Text.has_char v6proxy.Text.is_whitespace
    v6proxy.Text.text_eq v6proxy.Text.to_lower v6proxy.Text.trim_end_matches
    v6proxy.Text.trim_start_matches
worse_denied = refl

worse_saved : (post_domains_deny v6_nets serialize smooth (worse ∷ []) started).0 ≢ acl_not_saved
worse_saved e = cc (e, worse_denied)

post_domains_deny_refuses_example :
    is_allowed
      (post_domains_deny v6_nets serialize smooth (worse ∷ []) started).1.domain_filter
      (codes "www.worse.com")
    ≡ false
post_domains_deny_refuses_example =
    post_domains_deny_refuses v6_nets serialize smooth started worse (domain (codes "worse.com"))
      (codes "www.worse.com") worse_parses worse_short worse_matches nothing_allowed worse_saved

-- A range inside the allowed one, and an address in it.
abbrev inner_range : V6Pool
inner_range = record { prefix = 0x20010db8000100050000000000000000; prefix_len = 64 }

abbrev inner : IpAddr
inner = v6 0x20010db8000100050000000000000001

abbrev inner_text : Text
inner_text = codes "2001:db8:1:5::/64"

inner_read : parse_net v6_nets inner_text ≡ ok inner_range
unfolding parse_net v6proxy.Text.has_char v6proxy.Config.Pool.parse v6proxy.Text.split
    v6proxy.Addr.parse_ipv6 v6proxy.Text.Numbers.to_digit v6proxy.Text.Numbers.from_str_radix
    v6proxy.Config.Pool.prefix_mask
inner_read = refl

inner_reread : parse_net v6_nets (v6_nets.show (v6_nets.trunc inner_range)) ≡ ok inner_range
unfolding parse_net v6proxy.Text.has_char
inner_reread = refl

inner_inside : v6_nets.contains inner_range inner ≡ true
unfolding v6proxy.Config.Pool.prefix_mask
inner_inside = refl

nothing_longer :
    any
      (λ a. v6_nets.contains a inner && ltb 64 (v6_nets.prefix_len a))
      (valid_nets v6_nets (effective_allow started.store.policies.egress_acl started.egress_base.0))
    ≡ false
unfolding effective_allow valid_nets v6proxy.State.Delta.merge_acl parse_net v6proxy.Text.has_char
    v6proxy.Config.Pool.prefix_mask
nothing_longer = refl

abbrev egress_answer : AclResponse
egress_answer = (post_egress_deny v6_nets serialize smooth (inner_text ∷ []) started).0

inner_denied :
    egress_answer
    ≡ acl_shown (record {
      allow = record {
        base = started.egress_base.0;
        add = [];
        del = [];
        effective = started.egress_base.0;
      };
      deny = record {
        base = [];
        add = v6_nets.show inner_range ∷ [];
        del = [];
        effective = v6_nets.show inner_range ∷ [];
      };
    })
unfolding post_egress_deny v6proxy.Api.Acl.mutate_acl v6proxy.Api.Acl.canonicalize_batch
    v6proxy.Config.Net.canonicalize_net parse_net v6proxy.Text.has_char v6proxy.Config.Pool.parse
    v6proxy.Text.split v6proxy.Addr.parse_ipv6 v6proxy.Text.Numbers.to_digit
    v6proxy.Text.Numbers.from_str_radix v6proxy.State.Save.apply_and_save
    v6proxy.State.Save.save_policies v6proxy.Api.Proxy.rebuild_egress_filter
    Egress.build_egress_filter Egress.build v6proxy.Config.Net.parse_net_list
    Egress.filter_valid_nets v6proxy.Addr.parse_ip v6proxy.Api.Acl.acl_view v6proxy.Api.Acl.edit
    v6proxy.Api.Acl.edit_all v6proxy.Api.Acl.view Egress.builtin_blocked_nets Egress.extend_deny
    v6proxy.Config.Pool.prefix_mask v6proxy.State.Delta.add_allow add_deny
    v6proxy.State.Delta.apply_add v6proxy.State.Delta.apply_del v6proxy.State.Delta.del_allow
    v6proxy.State.Delta.del_deny effective_allow v6proxy.State.Delta.effective_deny
    v6proxy.State.Delta.merge_acl v6proxy.State.Save.finish_save v6proxy.State.Save.publish
    v6proxy.State.Save.write_tmp v6proxy.Text.Numbers.digits_from v6proxy.Text.text_eq
inner_denied = refl

inner_saved : egress_answer ≢ acl_not_saved
inner_saved e = cc (e, inner_denied)

post_egress_deny_refuses_example :
    v6proxy.Config.Egress.is_allowed v6_nets
      (post_egress_deny v6_nets serialize smooth (inner_text ∷ []) started).1.egress_filter
      inner
    ≡ false
post_egress_deny_refuses_example =
    post_egress_deny_refuses v6_nets serialize smooth started builtins builtin_ranges_parse
      inner_text inner_range inner inner_read inner_reread inner_inside nothing_longer inner_saved
