-- ===== src/Acl.antt =====
-- src/acl.rs: the decision that both filters share, and the domain filter.
pub mod Rule
pub mod Matcher
pub mod Filter
use v6proxy.Prelude.{Bool, true, false, Option, none, some}

-- `decide`, over an order test `gt a d` for `a > d`.
unfoldable pub decide {ℓ} : {S : Type ℓ} → (S → S → Bool) → Option S → Option S → Bool → Bool
decide gt none none allow_is_empty = allow_is_empty
decide gt (some a) none allow_is_empty = true
decide gt none (some d) allow_is_empty = false
decide gt (some a) (some d) allow_is_empty = gt a d
