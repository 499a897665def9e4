-- ===== src/Api/Acl/Race.antt =====
-- Edits of the domain ACL by several requests at once: in `mutate_acl` of src/api/handlers.rs the save
-- is one step under the write lock, and the rebuild of src/acl.rs after it is two, the load of the
-- policies and the store of the filter, which no lock holds together.
pub mod Laws
use v6proxy.Prelude.{ℕ, suc, ◌≡◌, ◌⊎◌, Bool, true, Option, List, [], ◌∷◌, ◌++◌}
use v6proxy.State.Delta.{AclDelta}
use v6proxy.State.Save.{Policies}
use v6proxy.Acl.Filter.{DomainFilter, build_domain_filter}
use v6proxy.Api.Proxy.{Base}

-- The lists of the config, the served overlay and the compiled filter, with the requests that have
-- saved but not yet loaded, and the filters that have been built but not yet stored.
pub record Editing : Type 0 where
  pub base : Base
  pub domain_acl : AclDelta
  pub domain_filter : DomainFilter
  pub saved : ℕ
  pub built : List DomainFilter

-- What a rebuild that loads now will store.
abbrev pub current_filter : Editing → DomainFilter
current_filter e = (build_domain_filter e.base.0 e.base.1 e.domain_acl).0

-- One step of one of the requests. Unless `overlap` is true, no save comes between the load and the
-- store of another request's rebuild.
pub data Step (overlap : Bool) : Editing → Editing → Type 0 where
  save :
      {e : Editing}
      → (overlap ≡ true) ⊎ (e.built ≡ [])
      → (edits : AclDelta → AclDelta)
      → Step overlap e (record e { domain_acl = edits e.domain_acl; saved = suc e.saved })
  load :
      {e : Editing}
      → (n : ℕ) → e.saved ≡ suc n
      → Step overlap e (record e { saved = n; built = current_filter e ∷ e.built })
  store :
      {e : Editing}
      → (before after : List DomainFilter) (filter : DomainFilter)
      → e.built ≡ before ++ filter ∷ after
      → Step overlap e (record e { domain_filter = filter; built = before ++ after })

pub data Reach (overlap : Bool) (start : Editing) : Editing → Type 0 where
  begin : Reach overlap start start
  next : {e e' : Editing} → Reach overlap start e → Step overlap e e' → Reach overlap start e'
