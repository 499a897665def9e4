-- ===== src/Api/Acl.antt =====
-- The ACL handlers of src/api/handlers.rs: views of both ACLs, and batches of edits of their overlays.
pub mod Fresh
pub mod Effect
pub mod EgressEffect
pub mod Race
pub mod Sound
use v6proxy.Prelude.{
  ℕ, Bool, true, false, Option, none, some, List, [], ◌∷◌, Result, ok, err, foldl,
}
use v6proxy.Text.{Text}
use v6proxy.State.Delta.{
  AclDelta, effective_allow, effective_deny, add_allow, del_allow, add_deny, del_deny,
}
use v6proxy.State.Save.{Policies, Store, SaveIo, SaveError, apply_and_save}
use v6proxy.Acl.Rule.{RuleError, canonicalize_rule}
use v6proxy.Config.Net.{IpNets, NetError, canonicalize_net}
use v6proxy.Api.Proxy.{Proxy, Base, rebuild_domain_filter, rebuild_egress_filter}
use v6proxy.Api.Bindings.{Env}

pub record AclListView : Type 0 where
  pub base : List Text
  pub add : List Text
  pub del : List Text
  pub effective : List Text

pub record AclView : Type 0 where
  pub allow : AclListView
  pub deny : AclListView

pub data AclList : Type 0 where
  allow_list deny_list : AclList

pub data AclOp : Type 0 where
  add_op del_op : AclOp

-- What an ACL request ends in.
pub data AclResponse : Type 0 where
  acl_shown : AclView → AclResponse
  invalid_rule : Text → AclResponse
  acl_not_saved : AclResponse
  acl_panicked : AclResponse

unfoldable pub acl_view : Base → AclDelta → AclView
acl_view (base_allow, base_deny) delta = record {
  allow = record {
    base = base_allow;
    add = delta.allow_add;
    del = delta.allow_del;
    effective = effective_allow delta base_allow;
  };
  deny = record {
    base = base_deny;
    add = delta.deny_add;
    del = delta.deny_del;
    effective = effective_deny delta base_deny;
  };
}

unfoldable pub edit : AclList → AclOp → Base → AclDelta → Text → AclDelta
edit allow_list add_op base d rule = add_allow d base.0 rule
edit allow_list del_op base d rule = del_allow d base.0 rule
edit deny_list add_op base d rule = add_deny d base.1 rule
edit deny_list del_op base d rule = del_deny d base.1 rule

-- The loop of `mutate_acl`'s closure.
unfoldable pub edit_all : AclList → AclOp → Base → List Text → AclDelta → AclDelta
edit_all list op base [] d = d
edit_all list op base (rule ∷ rules) d = edit_all list op base rules (edit list op base d rule)

-- The first loop of `mutate_acl`: all rules in canonical form, or the first that is refused.
unfoldable pub canonicalize_batch :
    {E : Type 0} → (Text → Result E Text) → List Text → Result Text (List Text)
canonicalize_batch canonicalize [] = ok []
canonicalize_batch canonicalize (r ∷ rest) = elim (canonicalize r) [
  | err e ↦ err r
  | ok c ↦ elim (canonicalize_batch canonicalize rest) [
    | err bad ↦ err bad
    | ok canon ↦ ok (c ∷ canon)
  ]
]

module _ (nets : IpNets) (serialize : Policies → Option Text) where
  -- `AclKind`: `update` is `select` with the edit of what it selects; `rebuild` gives `none` when it
  -- panics.
  pub record AclKind : Type 1 where
    pub Error : Type 0
    pub canonicalize : Text → Result Error Text
    pub base : Proxy nets → Base
    pub select : Policies → AclDelta
    pub update : (AclDelta → AclDelta) → Policies → Policies
    pub rebuild : Proxy nets → Option (Proxy nets)

  abbrev pub domain_kind : AclKind
  domain_kind = record {
    Error = RuleError;
    canonicalize = canonicalize_rule;
    base = λ s. s.domain_base;
    select = λ p. p.domain_acl;
    update = λ f p. record p { domain_acl = f p.domain_acl };
    rebuild = λ s. some (rebuild_domain_filter nets s);
  }

  abbrev pub egress_kind : AclKind
  egress_kind = record {
    Error = NetError;
    canonicalize = canonicalize_net nets;
    base = λ s. s.egress_base;
    select = λ p. p.egress_acl;
    update = λ f p. record p { egress_acl = f p.egress_acl };
    rebuild = λ s. rebuild_egress_filter nets s;
  }

  unfoldable pub view : AclKind → Proxy nets → AclView
  view kind s = acl_view (kind.base s) (kind.select s.store.policies)

  unfoldable pub get_domains : Proxy nets → AclResponse
  get_domains s = acl_shown (view domain_kind s)

  unfoldable pub get_egress : Proxy nets → AclResponse
  get_egress s = acl_shown (view egress_kind s)

  abbrev pub answer : AclKind → Proxy nets → Option (Proxy nets) → AclResponse × Proxy nets
  answer kind s none = (acl_panicked, s)
  answer kind s (some s') = (acl_shown (view kind s'), s')

  abbrev pub finish_mutate :
      AclKind → Proxy nets → Result SaveError Policies × Store → AclResponse × Proxy nets
  finish_mutate kind s (ok p, store) =
      answer kind (record s { store = store }) (kind.rebuild (record s { store = store }))
  finish_mutate kind s (err e, store) = (acl_not_saved, record s { store = store })

  -- Without other requests in between; the first component of the result is the response.
  unfoldable pub mutate_acl :
      Env → AclList → AclOp → List Text → AclKind → Proxy nets → AclResponse × Proxy nets
  mutate_acl env list op rules kind s = elim (canonicalize_batch kind.canonicalize rules) [
    | err r ↦ (invalid_rule r, s)
    | ok canon ↦ finish_mutate kind s (
        apply_and_save serialize env.io env.saved_at
          (kind.update (edit_all list op (kind.base s) canon)) s.store)
  ]

  module _ (env : Env) (rules : List Text) (s : Proxy nets) where
    unfoldable pub post_domains_allow : AclResponse × Proxy nets
    post_domains_allow = mutate_acl env allow_list add_op rules domain_kind s

    unfoldable pub delete_domains_allow : AclResponse × Proxy nets
    delete_domains_allow = mutate_acl env allow_list del_op rules domain_kind s

    unfoldable pub post_domains_deny : AclResponse × Proxy nets
    post_domains_deny = mutate_acl env deny_list add_op rules domain_kind s

    unfoldable pub delete_domains_deny : AclResponse × Proxy nets
    delete_domains_deny = mutate_acl env deny_list del_op rules domain_kind s

    unfoldable pub post_egress_allow : AclResponse × Proxy nets
    post_egress_allow = mutate_acl env allow_list add_op rules egress_kind s

    unfoldable pub delete_egress_allow : AclResponse × Proxy nets
    delete_egress_allow = mutate_acl env allow_list del_op rules egress_kind s

    unfoldable pub post_egress_deny : AclResponse × Proxy nets
    post_egress_deny = mutate_acl env deny_list add_op rules egress_kind s

    unfoldable pub delete_egress_deny : AclResponse × Proxy nets
    delete_egress_deny = mutate_acl env deny_list del_op rules egress_kind s
