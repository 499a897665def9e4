-- ===== src/State/Delta/Edit.antt =====
-- The four edits of an `AclDelta`: what they do to the effective lists, and the invariant they keep.
use v6proxy.Prelude.{
  ◌≡◌, refl, false, not, ◌&&◌, ◌||◌, List, [], ◌∷◌, ◌++◌, arith, ◌==◌, contains, contains-append,
  contains-retain_ne, retain, IsNodup,
}
use v6proxy.Text.{Text, text_eq_iff, eq_text}
use v6proxy.State.Delta.{
  AclDelta, merge_acl, apply_add, apply_del, effective_allow, effective_deny, add_allow, del_allow,
  add_deny, del_deny,
}
use v6proxy.State.Delta.Merge.{contains-merge_acl}

module _ (base add del : List Text) (rule : Text) where
  apply_add-contains :
      (x : Text)
      → contains x (merge_acl base (apply_add base add del rule).0 (apply_add base add del rule).1)
        ≡ x == rule || contains x (merge_acl base add del)
  unfolding apply_add
  apply_add-contains x = ground (
    arith,
    contains-merge_acl x base add (retain (λ r. not (r == rule)) del),
    contains-merge_acl x base (add ++ rule ∷ []) (retain (λ r. not (r == rule)) del),
    contains-merge_acl x base add del,
    contains-retain_ne x rule del,
    contains-append x add (rule ∷ []),
    text_eq_iff x rule,
    text_eq_iff rule x,
  )

  apply_del-contains :
      (x : Text)
      → contains x (merge_acl base (apply_del base add del rule).0 (apply_del base add del rule).1)
        ≡ not (x == rule) && contains x (merge_acl base add del)
  unfolding apply_del
  apply_del-contains x = ground (
    arith,
    contains-merge_acl x base (retain (λ r. not (r == rule)) add) del,
    contains-merge_acl x base (retain (λ r. not (r == rule)) add) (del ++ rule ∷ []),
    contains-merge_acl x base add del,
    contains-retain_ne x rule add,
    contains-append x del (rule ∷ []),
    text_eq_iff x rule,
    text_eq_iff rule x,
  )

-- After `add_allow` (`add_deny`) the effective allow (deny) list holds the rule and what it held
-- before, and the other list is unchanged.
pub add-effective :
    (d : AclDelta) (base other : List Text) (rule x : Text)
    → (contains x (effective_allow (add_allow d base rule) base)
        ≡ x == rule || contains x (effective_allow d base))
      × (effective_deny (add_allow d base rule) other ≡ effective_deny d other)
      × (contains x (effective_deny (add_deny d base rule) base)
          ≡ x == rule || contains x (effective_deny d base))
      × (effective_allow (add_deny d base rule) other ≡ effective_allow d other)
unfolding effective_allow effective_deny add_allow add_deny
add-effective d base other rule x = (
  apply_add-contains base d.allow_add d.allow_del rule x,
  refl,
  apply_add-contains base d.deny_add d.deny_del rule x,
  refl,
)

-- After `del_allow` (`del_deny`) the effective allow (deny) list holds what it held before except
-- the rule, also where the rule stands in the config base, and the other list is unchanged.
pub del-effective :
    (d : AclDelta) (base other : List Text) (rule x : Text)
    → (contains x (effective_allow (del_allow d base rule) base)
        ≡ not (x == rule) && contains x (effective_allow d base))
      × (effective_deny (del_allow d base rule) other ≡ effective_deny d other)
      × (contains x (effective_deny (del_deny d base rule) base)
          ≡ not (x == rule) && contains x (effective_deny d base))
      × (effective_allow (del_deny d base rule) other ≡ effective_allow d other)
unfolding effective_allow effective_deny del_allow del_deny
del-effective d base other rule x = (
  apply_del-contains base d.allow_add d.allow_del rule x,
  refl,
  apply_del-contains base d.deny_add d.deny_del rule x,
  refl,
)

-- One overlay list pair is tidy over its base: no additions that the base has or that stand twice,
-- and no suppression of what is not in the base or that stands twice.
pub record IsTidyOver (base add del : List Text) : Type 0 where
  pub add_new : (x : Text) → contains x add && contains x base ≡ false
  pub del_base : (x : Text) → contains x del && not (contains x base) ≡ false
  pub add_once : IsNodup add
  pub del_once : IsNodup del

retain-IsNodup :
    (rule : Text) (xs : List Text) → IsNodup xs → IsNodup (retain (λ r. not (r == rule)) xs)
retain-IsNodup rule [] h = tt
retain-IsNodup rule (x ∷ xs) h =
    ground (arith, retain-IsNodup rule xs h.1, contains-retain_ne x rule xs)

push-IsNodup :
    (rule : Text) (xs : List Text)
    → contains rule xs ≡ false
    → IsNodup xs
    → IsNodup (xs ++ rule ∷ [])
push-IsNodup rule [] c h = (refl, tt)
push-IsNodup rule (x ∷ xs) c h = ground (
  arith,
  push-IsNodup rule xs,
  contains-append x xs (rule ∷ []),
  text_eq_iff x rule,
  text_eq_iff rule x,
)

module _ (base add del : List Text) (rule : Text) (h : IsTidyOver base add del) where
  apply_add-IsTidyOver :
      IsTidyOver base (apply_add base add del rule).0 (apply_add base add del rule).1
  unfolding apply_add
  apply_add-IsTidyOver = record {
    add_new =
        λ x. ground (arith, h.add_new x, contains-append x add (rule ∷ []), text_eq_iff rule x);
    del_base = λ x. ground (arith, h.del_base x, contains-retain_ne x rule del);
    add_once = ground (arith, h.add_once, push-IsNodup rule add);
    del_once = ground (arith, retain-IsNodup rule del h.del_once);
  }

  apply_del-IsTidyOver :
      IsTidyOver base (apply_del base add del rule).0 (apply_del base add del rule).1
  unfolding apply_del
  apply_del-IsTidyOver = record {
    add_new = λ x. ground (arith, h.add_new x, contains-retain_ne x rule add);
    del_base =
        λ x. ground (arith, h.del_base x, contains-append x del (rule ∷ []), text_eq_iff rule x);
    add_once = ground (arith, retain-IsNodup rule add h.add_once);
    del_once = ground (arith, h.del_once, push-IsNodup rule del);
  }

pub record IsTidy (allow deny : List Text) (d : AclDelta) : Type 0 where
  pub on_allow : IsTidyOver allow d.allow_add d.allow_del
  pub on_deny : IsTidyOver deny d.deny_add d.deny_del

-- Every edit keeps an overlay tidy over the config base.
pub edits-IsTidy :
    (allow deny : List Text) (d : AclDelta) (rule : Text)
    → IsTidy allow deny d
    → IsTidy allow deny (add_allow d allow rule)
      × IsTidy allow deny (del_allow d allow rule)
      × IsTidy allow deny (add_deny d deny rule)
      × IsTidy allow deny (del_deny d deny rule)
unfolding add_allow del_allow add_deny del_deny
edits-IsTidy allow deny d rule h = (
  record {
    on_allow = apply_add-IsTidyOver allow d.allow_add d.allow_del rule h.on_allow;
    on_deny = h.on_deny;
  },
  record {
    on_allow = apply_del-IsTidyOver allow d.allow_add d.allow_del rule h.on_allow;
    on_deny = h.on_deny;
  },
  record {
    on_allow = h.on_allow;
    on_deny = apply_add-IsTidyOver deny d.deny_add d.deny_del rule h.on_deny;
  },
  record {
    on_allow = h.on_allow;
    on_deny = apply_del-IsTidyOver deny d.deny_add d.deny_del rule h.on_deny;
  },
)

retain_idem :
    (rule : Text) (xs : List Text)
    → retain (λ r. not (r == rule)) (retain (λ r. not (r == rule)) xs)
      ≡ retain (λ r. not (r == rule)) xs
retain_idem rule [] = refl
retain_idem rule (x ∷ xs) = ground (arith, retain_idem rule xs)

apply_add_idem :
    (base add del : List Text) (rule : Text)
    → apply_add base (apply_add base add del rule).0 (apply_add base add del rule).1 rule
      ≡ apply_add base add del rule
unfolding apply_add
apply_add_idem base add del rule =
    ground
      (arith, retain_idem rule del, contains-append rule add (rule ∷ []), text_eq_iff rule rule)

apply_del_idem :
    (base add del : List Text) (rule : Text)
    → apply_del base (apply_del base add del rule).0 (apply_del base add del rule).1 rule
      ≡ apply_del base add del rule
unfolding apply_del
apply_del_idem base add del rule =
    ground
      (arith, retain_idem rule add, contains-append rule del (rule ∷ []), text_eq_iff rule rule)

-- Each edit, made twice with one rule, leaves the overlay that it leaves when made once.
pub edits_idempotent :
    (d : AclDelta) (base : List Text) (rule : Text)
    → (add_allow (add_allow d base rule) base rule ≡ add_allow d base rule)
      × (del_allow (del_allow d base rule) base rule ≡ del_allow d base rule)
      × (add_deny (add_deny d base rule) base rule ≡ add_deny d base rule)
      × (del_deny (del_deny d base rule) base rule ≡ del_deny d base rule)
unfolding add_allow del_allow add_deny del_deny
edits_idempotent d base rule = (
  ground (arith, apply_add_idem base d.allow_add d.allow_del rule),
  ground (arith, apply_del_idem base d.allow_add d.allow_del rule),
  ground (arith, apply_add_idem base d.deny_add d.deny_del rule),
  ground (arith, apply_del_idem base d.deny_add d.deny_del rule),
)
