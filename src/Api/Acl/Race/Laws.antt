-- ===== src/Api/Acl/Race/Laws.antt =====
-- When the compiled domain filter is that of the served overlay.
use v6proxy.Prelude.{◌≡◌, refl, subst, false, List, [], ◌∷◌, ◌++◌, All, arith, inl, inr, false≢true}
use v6proxy.Acl.Filter.{DomainFilter}
use v6proxy.Api.Acl.Race.{Editing, current_filter, Step, save, load, store, Reach, begin, next}

-- No request is between its save and its store.
pub record IsQuiet (e : Editing) : Type 0 where
  pub none_saved : e.saved ≡ 0
  pub none_built : e.built ≡ []

-- What is built is current, and so is the filter unless a rebuild is still to come.
record IsCurrent (e : Editing) : Type 0 where
  built_current : All (λ f. f ≡ current_filter e) e.built
  filter_current : IsQuiet e → e.domain_filter ≡ current_filter e

module _ (P : DomainFilter → Type 0) where
  All-middle :
      (before after : List DomainFilter) (f : DomainFilter)
      → All P (before ++ f ∷ after)
      → P f × All P (before ++ after)
  All-middle [] after f h = h
  All-middle (x ∷ before) after f h =
      let (at, others) = All-middle before after f h.1 in (at, (h.0, others))

step-IsCurrent : {e e' : Editing} → Step false e e' → IsCurrent e → IsCurrent e'
step-IsCurrent (save (inl overlap) edits) c = absurd (false≢true overlap)
step-IsCurrent (save {e = e} (inr nothing) edits) c = record {
  built_current = rw nothing tt;
  filter_current = λ quiet. absurd (ground (arith, quiet.none_saved));
}
step-IsCurrent (load {e = e} n owed) c = record {
  built_current = (refl, c.built_current);
  filter_current = λ quiet. absurd (ground (arith, quiet.none_built));
}
step-IsCurrent (store {e = e} before after filter split) c =
    let (at, others) =
      All-middle (λ f. f ≡ current_filter e) before after filter
        (subst (λ fs. All (λ f. f ≡ current_filter e) fs) split c.built_current) in
    record { built_current = others; filter_current = λ quiet. at }

Reach-IsCurrent : {start e : Editing} → IsCurrent start → Reach false start e → IsCurrent e
Reach-IsCurrent c begin = c
Reach-IsCurrent c (next before step) = step-IsCurrent step (Reach-IsCurrent c before)

-- When no save comes between the load and the store of another request's rebuild, then whenever
-- every request has finished, in whatever order their steps came, the compiled domain filter is
-- that of the config lists and the served overlay.
pub quiet_current :
    (start e : Editing)
    → start.built ≡ []
    → start.domain_filter ≡ current_filter start
    → Reach false start e
    → IsQuiet e
    → e.domain_filter ≡ current_filter e
quiet_current start e nothing fresh reach quiet =
    (Reach-IsCurrent (record { built_current = rw nothing tt; filter_current = λ q. fresh })
        reach).filter_current
      quiet
