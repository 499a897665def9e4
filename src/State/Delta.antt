-- ===== src/State/Delta.antt =====
-- `AclDelta` of src/state.rs: the runtime overlay over a read-only config list.
pub mod Merge
pub mod Edit
use v6proxy.Prelude.{
  Bool, true, false, not, ◌&&◌, ◌||◌, List, [], ◌∷◌, ◌++◌, if◌then◌else◌, ◌==◌, contains, retain,
}
use v6proxy.Text.{Text, eq_text}

pub record AclDelta : Type 0 where
  pub allow_add : List Text
  pub allow_del : List Text
  pub deny_add : List Text
  pub deny_del : List Text

abbrev pub empty_delta : AclDelta
empty_delta = record { allow_add = []; allow_del = []; deny_add = []; deny_del = [] }

-- The loop of `merge_acl`: `seen` is the hash set, `out` the result so far.
merge_loop : List Text → List Text → List Text → List Text → List Text
merge_loop del seen out [] = out
merge_loop del seen out (s ∷ rest) =
    let skipped = merge_loop del seen out rest in
    let kept = merge_loop del (s ∷ seen) (out ++ s ∷ []) rest in
    if contains s del then skipped else if contains s seen then skipped else kept

unfoldable pub merge_acl : List Text → List Text → List Text → List Text
unfolding merge_loop
merge_acl base add del = merge_loop del [] [] (base ++ add)

-- `apply_add` and `apply_del` return the new `add` and `del` lists.
unfoldable pub apply_add : List Text → List Text → List Text → Text → List Text × List Text
apply_add base add del rule =
    let del' = retain (λ r. not (r == rule)) del in
    let in_base = contains rule base in
    let in_add = contains rule add in
    if not in_base && not in_add then (add ++ rule ∷ [], del') else (add, del')

unfoldable pub apply_del : List Text → List Text → List Text → Text → List Text × List Text
apply_del base add del rule =
    let add' = retain (λ r. not (r == rule)) add in
    let in_base = contains rule base in
    let in_del = contains rule del in
    if in_base && not in_del then (add', del ++ rule ∷ []) else (add', del)

unfoldable pub effective_allow : AclDelta → List Text → List Text
effective_allow d base = merge_acl base d.allow_add d.allow_del

unfoldable pub effective_deny : AclDelta → List Text → List Text
effective_deny d base = merge_acl base d.deny_add d.deny_del

unfoldable pub add_allow : AclDelta → List Text → Text → AclDelta
add_allow d base rule =
    let (add, del) = apply_add base d.allow_add d.allow_del rule in
    record d { allow_add = add; allow_del = del }

unfoldable pub del_allow : AclDelta → List Text → Text → AclDelta
del_allow d base rule =
    let (add, del) = apply_del base d.allow_add d.allow_del rule in
    record d { allow_add = add; allow_del = del }

unfoldable pub add_deny : AclDelta → List Text → Text → AclDelta
add_deny d base rule =
    let (add, del) = apply_add base d.deny_add d.deny_del rule in
    record d { deny_add = add; deny_del = del }

unfoldable pub del_deny : AclDelta → List Text → Text → AclDelta
del_deny d base rule =
    let (add, del) = apply_del base d.deny_add d.deny_del rule in
    record d { deny_add = add; deny_del = del }
