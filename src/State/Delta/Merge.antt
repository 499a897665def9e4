-- ===== src/State/Delta/Merge.antt =====
-- `merge_acl` against its specification.
use mathlib.Core.List.{append-nil, append_assoc}
use v6proxy.Prelude.{
  ◌≡◌, refl, sym, not, ◌&&◌, ◌||◌, List, [], ◌∷◌, ◌++◌, arith, if◌then◌else◌, contains,
  contains-append, IsNodup,
}
use v6proxy.Text.{Text, text_eq_iff, eq_text}
use v6proxy.State.Delta.{merge_loop, merge_acl}

-- The specification: keep what neither `del` nor an earlier entry rules out.
unfoldable pub fresh : List Text → List Text → List Text → List Text
fresh del seen [] = []
fresh del seen (s ∷ rest) =
    let skipped = fresh del seen rest in
    let kept = s ∷ fresh del (s ∷ seen) rest in
    if contains s del || contains s seen then skipped else kept

merge_loop-eq-fresh :
    (del seen out xs : List Text) → merge_loop del seen out xs ≡ out ++ fresh del seen xs
unfolding merge_loop fresh
merge_loop-eq-fresh del seen out [] = sym (append-nil out)
merge_loop-eq-fresh del seen out (s ∷ rest) = ground (
  arith,
  merge_loop-eq-fresh del seen out rest,
  merge_loop-eq-fresh del (s ∷ seen) (out ++ s ∷ []) rest,
  append_assoc out (s ∷ []) (fresh del (s ∷ seen) rest),
)

contains-fresh :
    (x : Text) (del seen xs : List Text)
    → contains x (fresh del seen xs)
      ≡ contains x xs && not (contains x del) && not (contains x seen)
unfolding fresh
contains-fresh x del seen [] = refl
contains-fresh x del seen (s ∷ rest) =
    ground
      (arith, contains-fresh x del seen rest, contains-fresh x del (s ∷ seen) rest, text_eq_iff s x)

fresh-IsNodup : (del seen xs : List Text) → IsNodup (fresh del seen xs)
unfolding fresh
fresh-IsNodup del seen [] = tt
fresh-IsNodup del seen (s ∷ rest) = ground (
  arith,
  fresh-IsNodup del seen rest,
  fresh-IsNodup del (s ∷ seen) rest,
  contains-fresh s del (s ∷ seen) rest,
  text_eq_iff s s,
)

merge_acl-eq-fresh :
    (base add del : List Text) → merge_acl base add del ≡ fresh del [] (base ++ add)
unfolding merge_acl
merge_acl-eq-fresh base add del = merge_loop-eq-fresh del [] [] (base ++ add)

-- A rule is effective exactly if it stands in the base or in the additions, and not in the
-- deletions.
pub contains-merge_acl :
    (x : Text) (base add del : List Text)
    → contains x (merge_acl base add del)
      ≡ (contains x base || contains x add) && not (contains x del)
contains-merge_acl x base add del =
    rw
      (
        merge_acl-eq-fresh base add del,
        contains-fresh x del [] (base ++ add),
        contains-append x base add,
      )
      (ground arith)

-- No rule is effective twice.
pub merge_acl-IsNodup : (base add del : List Text) → IsNodup (merge_acl base add del)
merge_acl-IsNodup base add del =
    rw (merge_acl-eq-fresh base add del) (fresh-IsNodup del [] (base ++ add))
